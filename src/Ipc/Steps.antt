-- ===== src/Ipc/Steps.antt =====
-- The steps between contexts keep the bonds: running a context, following a chain, binding and releasing.
use hedron.Prelude.{
  ℕ, ◌+◌, ◌-◌, ◌%◌, ◌^◌, ◌<◌, ◌≡◌, ◌≢◌, refl, arith, false, Option, none, some, if_intro,
  if◌then◌else◌, ◌==◌, or-false,
}
use hedron.Links.{update}
use hedron.Ipc.State.{Cont, is_null, Ipc, Services, blocked, return_to_user, activate}
use hedron.Ipc.State.Next.{to_user, blocks}
use hedron.Ipc.Linked.{
  one_if, Linked, Room, Fine, Linked-frame, add_ref_held, del_rcu_held, chain_end_lem,
}

-- The references after another context runs.
moved :
    (a me ec e : ℕ) (ref : ℕ → ℕ)
    → 1 < ref me
    → a + one_if (e == me) < ref e
    → a + one_if (e == ec)
      < update (update ref me (ref me - 1)) ec (update ref me (ref me - 1) ec + 1) e
moved a me ec e ref h l = ground arith

module _ {ℓ} {W : Type ℓ} (k : Ipc W) (rank : ℕ → ℕ) (v : Linked k rank) (small : Room k 2) where
  -- The current context has a reference for running and one more.
  two : 1 < k.ref k.current
  two = let h = v.held k.current in ground arith

  -- the state in which another context runs
  abbrev pub run_state : Services W → ℕ → Ipc W
  run_state s ec =
      let me = k.current in
      let refs = update k.ref me (k.ref me - 1) in
      record k {
        ref = update refs ec (refs ec + 1);
        current = ec;
        rest = if ec == me then k.rest else s.transfer_fpu ec me k.rest;
      }

  pub return_to_user_lem :
      (s : Services W) (ec : ℕ) → return_to_user s ec k ≡ to_user ec (run_state s ec)
  unfolding return_to_user
  return_to_user_lem s ec =
      let me = k.current in
      let refs = update k.ref me (k.ref me - 1) in
      let bound = small me in
      let bound' = small ec in
      let h = v.held ec in
      let alive : 0 < refs ec = ground (arith, two) in
      rw (del_rcu_held (k.ref me) two (omega arith), add_ref_held (refs ec) alive (ground arith))
        refl

  pub run_state-Linked : (s : Services W) (ec : ℕ) → Linked (run_state s ec) rank
  run_state-Linked s ec =
      Linked-frame k _ rank refl refl refl v.busy v.idle
        (λ e. moved _ k.current ec e k.ref two (v.held e)) v

  pub return_to_user-Fine :
      (s : Services W) (ec : ℕ)
      → k.partner ec ≡ none
      → k.cont ec ≢ none
      → Fine (return_to_user s ec k)
  return_to_user-Fine s ec leaf ready =
      rw (return_to_user_lem s ec)
        ((rank, run_state-Linked s ec), record { leaf = leaf; ready = ready }, refl)

not-null : (o : Option Cont) → is_null o ≡ false → o ≢ none
not-null none e x = cc
not-null (some c) e x = cc

module _ {ℓ} {W : Type ℓ} (k : Ipc W) (rank : ℕ → ℕ) (v : Linked k rank) (small : Room k 2) where
  pub activate-Fine : (s : Services W) (f ec : ℕ) → rank ec < f → Fine (activate s f ec k)
  unfolding activate blocked
  activate-Fine s f ec h =
      let (last, d, eq, _, end, _) = chain_end_lem k rank f ec 0 v h in
      let k' : Ipc W = record k { ctr_link = (0 + d) % 2 ^ 32 } in
      let v' : Linked k' rank = Linked-frame k k' rank refl refl refl v.busy v.idle v.held v in
      rw (eq, Fine)
        (if_intro Fine (blocked k' last) (blocks last k') (return_to_user s last k')
          (λ e. ((rank, v'), end, e))
          (λ e.
            return_to_user-Fine k' rank v' small s last end
              (not-null (k.cont last) (or-false _ _ e).1)))
