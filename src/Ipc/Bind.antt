-- ===== src/Ipc/Bind.antt =====
-- A new bond, from the caller that runs to a context that waits for a message: `set_partner` of include/ec.hpp.
use hedron.Prelude.{
  ℕ, ◌+◌, ◌%◌, ◌^◌, ◌<◌, ◌≡◌, ◌≢◌, inl, inr, refl, sym, ap, ◌∙◌, arith, false, not, Option, none,
  some, if◌then◌else◌, ◌==◌,
}
use mathlib.Core.Option.{some-injective, none-ne-some}
use hedron.Links.{update}
use hedron.Sched.Ready.{update_self, update_ne, update_cases}
use hedron.Registers.{set_pt, set_ip}
use hedron.Ipc.State.{return_to_user, Cont, is_null, Ipc, Portal, Services, set_partner}
use hedron.Ipc.Call.{bound}
use hedron.Ipc.Linked.{
  set_cont-Linked, set_cont-Runs, some_given, one_if, Linked, Runs, Room, Fine, Linked-frame,
  add_ref_held,
}
use hedron.Ipc.Steps.{return_to_user-Fine}

-- The references of both sides of a new bond.
abbrev bound_refs : (ℕ → ℕ) → ℕ → ℕ → ℕ → ℕ
bound_refs ref me ec = update (update ref ec (ref ec + 1)) me (update ref ec (ref ec + 1) me + 1)

bound_room :
    (ref : ℕ → ℕ) (me ec : ℕ)
    → ec ≢ me
    → ((e : ℕ) → ref e + 3 < 2 ^ 32)
    → (e : ℕ) → bound_refs ref me ec e + 2 < 2 ^ 32
bound_room ref me ec d room e =
    let r = room e in let r' = room me in let r'' = room ec in ground arith

-- The called context gets the lowest rank.
abbrev pub bound_rank : (ℕ → ℕ) → ℕ → ℕ → ℕ
bound_rank rank ec e = if e == ec then 0 else rank e + 1

bound_held :
    (partner rcap : ℕ → Option ℕ) (ref : ℕ → ℕ) (me ec e : ℕ)
    → one_if (not (is_null (partner e))) + one_if (not (is_null (rcap e))) + one_if (e == me)
      < ref e
    → one_if (not (is_null (update partner me (some ec) e)))
        + one_if (not (is_null (update rcap ec (some me) e)))
        + one_if (e == me)
      < bound_refs ref me ec e
bound_held partner rcap ref me ec e h = ground arith

module _ {ℓ} {W : Type ℓ} (k : Ipc W) (rank : ℕ → ℕ) (v : Linked k rank) where
  -- The state after `set_partner`, and after the called context has got a continuation.
  abbrev pub bound_state : ℕ → Cont → Ipc W
  bound_state ec c = record k {
    partner = update k.partner k.current (some ec);
    rcap = update k.rcap ec (some k.current);
    ref = bound_refs k.ref k.current ec;
    ctr_link = (k.ctr_link + 1) % 2 ^ 32;
    cont = update k.cont ec (some c);
  }

  module _ (ec : ℕ) (c : Cont) (runs : Runs k) (free : k.cont ec ≡ none)
      (here : k.glb ec ≡ false) where
    distinct : ec ≢ k.current
    distinct e = runs.ready (ap k.cont (sym e) ∙ free)

    no_partner : k.partner ec ≡ none
    no_partner = v.idle ec free

    no_caller : (e : ℕ) → k.rcap ec ≢ some e
    no_caller e h = v.busy e ec h free

    pub bound_state-Linked : Linked (bound_state ec c) (bound_rank rank ec)
    bound_state-Linked =
        let me = k.current in
        let d = distinct in
        record {
          calls = λ e p h. elim (update_cases k.partner me e (some ec) (some p) h) [
            | inl (x, y) ↦ rw (sym (some-injective _ _ y), x) (update_self k.rcap ec (some me))
            | inr (n, y) ↦
                let z = v.calls e p y in
                update_ne k.rcap ec p (some me) (λ w. no_caller e (ap k.rcap (sym w) ∙ z)) ∙ z
          ];
          called = λ e p h. elim (update_cases k.rcap ec p (some me) (some e) h) [
            | inl (x, y) ↦ rw (sym (some-injective _ _ y), x) (update_self k.partner me (some ec))
            | inr (n, y) ↦
                let z = v.called e p y in
                update_ne k.partner me e (some ec)
                  (λ w. none-ne-some _ (sym runs.leaf ∙ ap k.partner (sym w) ∙ z))
                ∙ z
          ];
          busy = λ e p h u. elim (update_cases k.cont ec p (some c) none u) [
            | inl (x, y) ↦ none-ne-some _ (sym y)
            | inr (n, y) ↦ v.busy e p (sym (update_ne k.rcap ec p (some me) n) ∙ h) y
          ];
          idle = λ e h. elim (update_cases k.cont ec e (some c) none h) [
            | inl (x, y) ↦ absurd (none-ne-some _ (sym y))
            | inr (n, y) ↦
                update_ne k.partner me e (some ec) (λ w. runs.ready (ap k.cont (sym w) ∙ y))
                ∙ v.idle e y
          ];
          falls = λ e p h. elim (update_cases k.partner me e (some ec) (some p) h) [
            | inl (x, y) ↦ let z = some-injective _ _ y in ground arith
            | inr (n, y) ↦
                let z = v.falls e p y in
                let w : e ≢ ec = λ w. none-ne-some _ (sym no_partner ∙ ap k.partner (sym w) ∙ y) in
                ground arith
          ];
          local = λ e p h. elim (update_cases k.rcap ec p (some me) (some e) h) [
            | inl (x, y) ↦ ap k.glb x ∙ here
            | inr (n, y) ↦ v.local e p y
          ];
          held = λ e. bound_held k.partner k.rcap k.ref me ec e (v.held e);
        }

    -- `set_partner` binds, and no counter overflows.
    pub set_partner_lem :
        (room : Room k 2) → set_partner ec k ≡ some (record (bound_state ec c) { cont = k.cont })
    unfolding set_partner
    set_partner_lem room =
        let me = k.current in
        let d = distinct in
        let h = v.held ec in
        let h' = v.held me in
        let b = room ec in
        let b' = room me in
        rw
          (
            add_ref_held (k.ref ec) (omega arith) (omega arith),
            add_ref_held (update k.ref ec (k.ref ec + 1) me) (ground arith) (ground arith),
          )
          refl

-- The state in which the called context starts.
abbrev pub started {ℓ} : {W : Type ℓ} → Cont → Cont → Portal → Ipc W → Ipc W
started mine its pt k = record k {
  cont = update (update k.cont k.current (some mine)) pt.ec (some its);
  partner = update k.partner k.current (some pt.ec);
  rcap = update k.rcap pt.ec (some k.current);
  ref = bound_refs k.ref k.current pt.ec;
  ctr_link = (k.ctr_link + 1) % 2 ^ 32;
  regs = update k.regs pt.ec (set_ip pt.ip (set_pt pt.id (k.regs pt.ec)));
}

-- A context that a call starts can run.
pub record Starts {ℓ} {W : Type ℓ} (k : Ipc W) (rank : ℕ → ℕ) (ec : ℕ) : Type 0 where
  pub linked : Linked k rank
  pub room : Room k 2
  pub leaf : k.partner ec ≡ none
  pub ready : k.cont ec ≢ none

module _ {ℓ} {W : Type ℓ} (s : Services W) (k : Ipc W) (rank : ℕ → ℕ) (mine its : Cont)
    (pt : Portal) (v : Linked k rank) (runs : Runs k) (room : Room k 3) (free : k.cont pt.ec ≡ none)
    (here : k.glb pt.ec ≡ false) where
  abbrev waiting : Ipc W
  waiting = record k { cont = update k.cont k.current (some mine) }

  pub called_other : pt.ec ≢ k.current
  called_other e = runs.ready (ap k.cont (sym e) ∙ free)

  waiting-Linked : Linked waiting rank
  waiting-Linked = set_cont-Linked k rank k.current (some mine) (some_given mine) v

  waiting-Runs : Runs waiting
  waiting-Runs = set_cont-Runs k k.current (some mine) (some_given mine) runs

  waiting_free : waiting.cont pt.ec ≡ none
  waiting_free = update_ne k.cont k.current pt.ec (some mine) called_other ∙ free

  pub started-Starts : Starts (started mine its pt k) (bound_rank rank pt.ec) pt.ec
  started-Starts =
      let u =
        bound_state-Linked waiting rank waiting-Linked pt.ec its waiting-Runs waiting_free here in
      record {
        linked =
            Linked-frame (bound_state waiting rank waiting-Linked pt.ec its) (started mine its pt k)
              _ refl refl refl u.busy u.idle u.held u;
        room = bound_room k.ref k.current pt.ec called_other room;
        leaf = update_ne k.partner k.current pt.ec (some pt.ec) called_other ∙ v.idle pt.ec free;
        ready = λ e. some_given its (sym (update_self waiting.cont pt.ec (some its)) ∙ e);
      }

  -- The caller waits, and the context of the portal runs.
  pub bound_lem : bound s mine its pt k ≡ return_to_user s pt.ec (started mine its pt k)
  unfolding bound
  bound_lem =
      rw
        (
          bound,
          set_partner_lem waiting rank waiting-Linked pt.ec its waiting-Runs waiting_free here
              (λ e. let r = room e in omega arith),
        )
        refl

  pub bound-Fine : Fine (bound s mine its pt k)
  bound-Fine =
      let u = started-Starts in
      rw bound_lem (return_to_user-Fine _ _ u.linked u.room s pt.ec u.leaf u.ready)
