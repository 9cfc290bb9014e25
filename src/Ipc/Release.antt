-- ===== src/Ipc/Release.antt =====
-- The end of a bond, when the context that serves answers: `clr_partner` of include/ec.hpp.
use hedron.Prelude.{
  ℕ, ◌+◌, ◌-◌, ◌%◌, ◌^◌, ◌<◌, ◌≡◌, ◌≢◌, inl, inr, refl, sym, ap, ◌∙◌, arith, false, not, Option,
  none, some, ◌==◌, ==_iff,
}
use native.Mathlib.Decide.{ℕ_discrete}
use mathlib.Core.Option.{some-injective, none-ne-some}
use hedron.Links.{update}
use hedron.Sched.Ready.{update_self, update_ne, update_cases}
use hedron.Refcount.{del_ref}
use hedron.Ipc.State.{Cont, is_null, Ipc, clr_partner}
use hedron.Ipc.Linked.{del_ref_held, one_if, Linked, Runs, Room, Linked-frame}

released_held :
    (partner rcap : ℕ → Option ℕ) (ref : ℕ → ℕ) (me ec e : ℕ)
    → ec ≢ me
    → partner ec ≡ some me
    → rcap me ≡ some ec
    → one_if (not (is_null (partner e))) + one_if (not (is_null (rcap e))) + one_if (e == me)
      < ref e
    → one_if (not (is_null (update partner ec none e)))
        + one_if (not (is_null (update rcap me none e)))
        + one_if (e == me)
      < update (update ref ec (ref ec - 1)) me (update ref ec (ref ec - 1) me - 1) e
released_held partner rcap ref me ec e d x y h = elim (ℕ_discrete e ec) [
  | yes p ↦ let z : one_if (not (is_null (partner e))) ≡ 1 = rw (p, x) refl in ground arith
  | no n ↦ elim (ℕ_discrete e me) [
    | yes p ↦ let z : one_if (not (is_null (rcap e))) ≡ 1 = rw (p, y) refl in ground arith
    | no n' ↦ ground arith
  ]
]

clr_step {ℓ} :
    {W : Type ℓ} (k : Ipc W) (ec caller a b : ℕ)
    → k.partner ec ≡ some k.current
    → k.rcap k.current ≡ some caller
    → del_ref (k.ref caller) ≡ (false, a)
    → del_ref (update k.ref caller a k.current) ≡ (false, b)
    → clr_partner ec k
      ≡ some (
        k.ctr_link,
        record k {
          rcap = update k.rcap k.current none;
          partner = update k.partner ec none;
          ref = update (update k.ref caller a) k.current b;
          ctr_link = (k.ctr_link + 2 ^ 32 - 1) % 2 ^ 32;
        },
      )
unfolding clr_partner
clr_step k ec caller a b x y z w =
    rw (clr_partner, x, y, z, w, (==_iff k.current k.current).1 refl) refl

module _ {ℓ} {W : Type ℓ} (k : Ipc W) (rank : ℕ → ℕ) (v : Linked k rank) (runs : Runs k) where
  -- The current context stops with the continuation `c`.
  abbrev pub stopped : Option Cont → Ipc W
  stopped c = record k { cont = update k.cont k.current c }

  stopped-idle : (c : Option Cont) (e : ℕ) → update k.cont k.current c e ≡ none → k.partner e ≡ none
  stopped-idle c e h = elim (update_cases k.cont k.current e c none h) [
    | inl (x, _) ↦ ap k.partner x ∙ runs.leaf
    | inr (_, y) ↦ v.idle e y
  ]

  -- It may, if it serves none.
  pub stopped-Linked : (c : Option Cont) → k.rcap k.current ≡ none → Linked (stopped c) rank
  stopped-Linked c free =
      Linked-frame k (stopped c) rank refl refl refl
        (λ e p h u. elim (update_cases k.cont k.current p c none u) [
          | inl (x, _) ↦ none-ne-some e (sym free ∙ ap k.rcap (sym x) ∙ h)
          | inr (_, y) ↦ v.busy e p h y
        ])
        (stopped-idle c) v.held v

  module _ (ec : ℕ) (serves : k.rcap k.current ≡ some ec) where
    calls_me : k.partner ec ≡ some k.current
    calls_me = v.called ec k.current serves

    pub caller_other : ec ≢ k.current
    caller_other e = none-ne-some k.current (sym runs.leaf ∙ ap k.partner (sym e) ∙ calls_me)

    pub caller_ready : k.cont ec ≢ none
    caller_ready e = none-ne-some k.current (sym (v.idle ec e) ∙ calls_me)

    -- The state after `clr_partner`, and its continuation.
    abbrev pub released : Option Cont → Ipc W
    released c = record k {
      cont = update k.cont k.current c;
      rcap = update k.rcap k.current none;
      partner = update k.partner ec none;
      ref =
          update (update k.ref ec (k.ref ec - 1)) k.current
            (update k.ref ec (k.ref ec - 1) k.current - 1);
      ctr_link = (k.ctr_link + 2 ^ 32 - 1) % 2 ^ 32;
    }

    pub released-Linked : (c : Option Cont) → Linked (released c) rank
    released-Linked c =
        let me = k.current in
        record {
          calls = λ e p h. elim (update_cases k.partner ec e none (some p) h) [
            | inl (_, y) ↦ absurd (none-ne-some p y)
            | inr (n, y) ↦
                let z = v.calls e p y in
                let other : p ≢ me = λ w. n (some-injective _ _ (sym z ∙ ap k.rcap w ∙ serves)) in
                update_ne k.rcap me p none other ∙ z
          ];
          called = λ e p h. elim (update_cases k.rcap me p none (some e) h) [
            | inl (_, y) ↦ absurd (none-ne-some e y)
            | inr (n, y) ↦
                let z = v.called e p y in
                let other : e ≢ ec =
                  λ w. n (some-injective _ _ (sym z ∙ ap k.partner w ∙ calls_me)) in
                update_ne k.partner ec e none other ∙ z
          ];
          busy = λ e p h u. elim (update_cases k.rcap me p none (some e) h) [
            | inl (_, y) ↦ none-ne-some e y
            | inr (n, y) ↦ v.busy e p y (sym (update_ne k.cont me p c n) ∙ u)
          ];
          idle = λ e h. elim (ℕ_discrete e ec) [
            | yes x ↦ rw x (update_self k.partner ec none)
            | no n ↦ update_ne k.partner ec e none n ∙ stopped-idle c e h
          ];
          falls = λ e p h. elim (update_cases k.partner ec e none (some p) h) [
            | inl (_, y) ↦ absurd (none-ne-some p y)
            | inr (_, y) ↦ v.falls e p y
          ];
          local = λ e p h. elim (update_cases k.rcap me p none (some e) h) [
            | inl (_, y) ↦ absurd (none-ne-some e y)
            | inr (_, y) ↦ v.local e p y
          ];
          held = λ e.
              released_held k.partner k.rcap k.ref me ec e caller_other calls_me serves (v.held e);
        }

    pub clr_partner_lem :
        (c : Option Cont) → Room k 0 → clr_partner ec (stopped c) ≡ some (k.ctr_link, released c)
    unfolding clr_partner
    clr_partner_lem c room =
        let me = k.current in
        let d = caller_other in
        let x : 1 < k.ref ec =
          (let h = v.held ec in
            let z : one_if (not (is_null (k.partner ec))) ≡ 1 = rw calls_me refl in omega arith) in
        let y : 1 < update k.ref ec (k.ref ec - 1) me =
          (let h = v.held me in
            let z : one_if (not (is_null (k.rcap me))) ≡ 1 = rw serves refl in ground arith) in
        clr_step (stopped c) ec ec _ _ calls_me serves
          (del_ref_held (k.ref ec) x (let r = room ec in omega arith))
          (del_ref_held (update k.ref ec (k.ref ec - 1) me) y
            (let r = room me in let r' = room ec in ground arith))
