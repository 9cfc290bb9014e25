-- ===== src/Ipc/Roundtrip.antt =====
-- A call and its answer: `sys_call` and `reply` of src/syscall.cpp undo one another.
use hedron.Prelude.{
  ℕ, ◌+◌, ◌-◌, ◌*◌, ◌^◌, ◌<◌, ◌≤◌, ◌≡◌, ◌≢◌, inl, inr, sym, ap, ◌∙◌, arith, true, false, not, ◌&&◌,
  none, some, Option-cases, ◌==◌,
}
use native.Mathlib.Decide.{ℕ_discrete}
use hedron.Word.{shr}
use hedron.Links.{update}
use hedron.Sched.Ready.{update_self, update_ne}
use hedron.Refcount.{last_ref}
use hedron.Ipc.State.{Ipc, Portal, Services, xcpu}
use hedron.Ipc.State.Cont.{ret_user_sysexit, recv_user}
use hedron.Ipc.State.Next.{to_user}
use hedron.Ipc.Reply.{reply}
use hedron.Ipc.Call.{sys_call_step}
use hedron.Ipc.Linked.{one_if, Runs, Room, Sound}
use hedron.Ipc.Steps.{run_state, run_state-Linked, return_to_user_lem}
use hedron.Ipc.Bind.{started, started-Starts, bound_lem, called_other, bound_rank}
use hedron.Ipc.Release.{released, released-Linked}
use hedron.Ipc.Answer.{reply_lem}
use hedron.Ipc.Calls.{sys_call_step_lem, here-local}

-- After the answer only the continuations of both sides differ.
pub record Restored {ℓ} {W : Type ℓ} (k k' : Ipc W) (ec : ℕ) : Type 0 where
  pub ref : (e : ℕ) → k'.ref e ≡ k.ref e
  pub partner : (e : ℕ) → k'.partner e ≡ k.partner e
  pub rcap : (e : ℕ) → k'.rcap e ≡ k.rcap e
  pub ctr_link : k'.ctr_link ≡ k.ctr_link
  pub finishes : k'.cont k.current ≡ some ret_user_sysexit
  pub waits : k'.cont ec ≡ none
  pub others : (e : ℕ) → e ≢ k.current → e ≢ ec → k'.cont e ≡ k.cont e

abbrev up : (ℕ → ℕ) → ℕ → ℕ → ℕ
up ref i = update ref i (ref i + 1)

abbrev down : (ℕ → ℕ) → ℕ → ℕ → ℕ
down ref i = update ref i (ref i - 1)

up_value : (ref : ℕ → ℕ) (i e : ℕ) → up ref i e ≡ ref e + one_if (e == i)
up_value ref i e = ground arith

down_value : (ref : ℕ → ℕ) (i e : ℕ) → down ref i e ≡ ref e - one_if (e == i)
down_value ref i e = ground arith

-- the counts after the call and after the end of the bond
abbrev called_ref : (ℕ → ℕ) → ℕ → ℕ → ℕ → ℕ
called_ref ref me ec = up (down (up (up ref ec) me) me) ec

abbrev released_ref : (ℕ → ℕ) → ℕ → ℕ → ℕ → ℕ
released_ref ref me ec = down (down (called_ref ref me ec) me) ec

one_side : (me ec e : ℕ) → ec ≢ me → one_if (e == ec) + one_if (e == me) ≤ 1
one_side me ec e d = ground arith

called_ref_value :
    (ref : ℕ → ℕ) (me ec e : ℕ) → called_ref ref me ec e ≡ ref e + 2 * one_if (e == ec)
called_ref_value ref me ec e =
    let x = up_value ref ec e in
    let x₂ = up_value (up ref ec) me e in
    let x₃ = down_value (up (up ref ec) me) me e in
    let x₄ = up_value (down (up (up ref ec) me) me) ec e in omega arith

released_ref_value :
    (ref : ℕ → ℕ) (me ec e : ℕ)
    → ec ≢ me
    → released_ref ref me ec e ≡ ref e + one_if (e == ec) - one_if (e == me)
released_ref_value ref me ec e d =
    let o = one_side me ec e d in
    let x = called_ref_value ref me ec e in
    let x₂ = down_value (called_ref ref me ec) me e in
    let x₃ = down_value (down (called_ref ref me ec) me) ec e in omega arith

restored_ref :
    (ref : ℕ → ℕ) (me ec e : ℕ)
    → ec ≢ me
    → 0 < ref me
    → up (down (released_ref ref me ec) ec) me e ≡ ref e
restored_ref ref me ec e d h =
    let o = one_side me ec e d in
    let alive : one_if (e == me) ≤ ref e = ground arith in
    let x = released_ref_value ref me ec e d in
    let x₂ = down_value (released_ref ref me ec) ec e in
    let x₃ = up_value (down (released_ref ref me ec) ec) me e in omega arith

overwritten {ℓ} :
    {A : Type ℓ} (f : ℕ → A) (i : ℕ) (v w : A) (e : ℕ) → f i ≡ w → update (update f i v) i w e ≡ f e
overwritten f i v w e h = elim (ℕ_discrete e i) [
  | yes p ↦ ap (update (update f i v) i w) p ∙ update_self (update f i v) i w ∙ sym h ∙ ap f (sym p)
  | no n ↦ update_ne (update f i v) i e w n ∙ update_ne f i e v n
]

-- A call that a waiting context answers, without a semaphore.
pub reply-sys_call {ℓ} :
    {W : Type ℓ} (s : Services W) (k : Ipc W) (rank : ℕ → ℕ) (f : ℕ) (pt : Portal)
    → Sound k rank f
    → k.cpu k.current < 2 ^ 16
    → s.portal (shr (k.regs k.current).rdi 12) k.rest ≡ some pt
    → (k.cpu k.current == xcpu k pt.ec) ≡ true
    → k.cont pt.ec ≡ none
    → k.ctr_link + 1 < 2 ^ 32
    → ((k.sc_ec == k.current) && last_ref k.sc_ref) ≡ false
    → (k' k'' : Ipc W) × (sys_call_step s f k ≡ to_user pt.ec k')
      × (reply s f none none k' ≡ to_user k.current k'')
      × Restored k k'' pt.ec
reply-sys_call s k rank f pt v small portal cpu free link alone =
    let me = k.current in
    let ec = pt.ec in
    let here = here-local s f rank k ec small (ap not cpu) in
    let l = v.linked in
    let r = v.runs in
    let st = started ret_user_sysexit recv_user pt k in
    let u = started-Starts s k rank ret_user_sysexit recv_user pt l r v.room free here in
    let low = bound_rank rank ec in
    let k' = run_state st low u.linked u.room s ec in
    let v' = run_state-Linked st low u.linked u.room s ec in
    let runs' : Runs k' = record { leaf = u.leaf; ready = u.ready } in
    let serves : k'.rcap ec ≡ some me = update_self k.rcap ec (some me) in
    let k₂ = released k' low v' runs' me serves none in
    let v₂ = released-Linked k' low v' runs' me serves none in
    let d = called_other s k rank ret_user_sysexit recv_user pt l r v.room free here in
    let other : me ≢ ec = λ e. d (sym e) in
    let uncalled : k.rcap ec ≡ none = elim (Option-cases (k.rcap ec)) [
      | inl x ↦ x
      | inr (c, x) ↦ absurd (l.busy c ec x free)
    ] in
    let once = update k.cont me (some ret_user_sysexit) in
    let twice = update once ec (some recv_user) in
    let room' : Room k' 0 =
      λ e. let x = called_ref_value k.ref me ec e in let y = v.room e in ground arith in
    let room₂ : Room k₂ 2 =
      λ e. let x = released_ref_value k.ref me ec e d in let y = v.room e in ground arith in
    (
      k',
      run_state k₂ low v₂ room₂ s me,
      sys_call_step_lem s f k pt portal cpu free
          ∙ bound_lem s k rank ret_user_sysexit recv_user pt l r v.room free here
          ∙ return_to_user_lem st low u.linked u.room s ec,
      reply_lem s f none k' low v' runs' me serves room' alone (ground arith)
          ∙ return_to_user_lem k₂ low v₂ room₂ s me,
      record {
        ref = λ e. let h = l.held me in restored_ref k.ref me ec e d (omega arith);
        partner = λ e. overwritten k.partner me (some ec) none e r.leaf;
        rcap = λ e. overwritten k.rcap ec (some me) none e uncalled;
        ctr_link = ground arith;
        finishes =
            update_ne twice ec me none other
            ∙ update_ne once ec me (some recv_user) other
            ∙ update_self k.cont me (some ret_user_sysexit);
        waits = update_self twice ec none;
        others = λ e n n'.
            update_ne twice ec e none n'
            ∙ update_ne once ec e (some recv_user) n'
            ∙ update_ne k.cont me e (some ret_user_sysexit) n;
      },
    )
