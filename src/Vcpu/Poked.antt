-- ===== src/Vcpu/Poked.antt =====
-- What `Vcpu::run` makes of a virtual CPU that is to stop.
use hedron.Prelude.{
  ℕ, Bool, true, false, ◌&&◌, ◌||◌, not, ◌≡◌, ◌≢◌, ◌∙◌, bit_or, bit_and, if◌then◌else◌, ap, subst,
  Option, ◌⊎◌, inl, inr, refl, some, none, arith, Bool-cases, if_intro, not-true, not-false,
  or-true, or-false, sym, ◌<◌, ◌%◌, ◌^◌,
}
use hedron.Utcb.{lower}
use hedron.Utcb.Layout.{mtd_word, exit_word, ctrl_word}
use native.Mathlib.Decide.{ℕ_discrete}
use hedron.Vmx.{Vmx, make_current, in_field}
use hedron.Vmx.Control.{ctrl0_value, forced}
use hedron.Vmx.Encoding.{
  exi_reason, cpu_exec_ctrl0, cpu_mtf, cpu_tpr_shadow, cpu_cr8_load, cpu_cr8_store,
}
use hedron.Prelude.Bits.{bit, bit-and, bit-or}
use hedron.Word.{has_bits}
use hedron.Vmx.Load.{vmx_poked}
use hedron.Vcpu.{
  Vcpu, Host, Processor, Next, is_owner, put, injecting_event, synthesize_poked_exit, exit_reason,
  written_back, return_to_vmm,
}
use hedron.Vcpu.Next.{entered, to_vmm, resumes, failed, scheduled, panicked}
use hedron.Vcpu.Run.{run, refused, loaded, enter, prepared, pass_nmi, go_on, block_nmis}

-- Someone wants the virtual CPU to stop: a poke, or an NMI that a passthrough CPU is to see.
abbrev pub stop_wanted {ℓ} : {H : Type ℓ} → Vcpu → Host H → Bool
stop_wanted v h = v.poked || v.passthrough && h.seen_spurious_nmi

-- The primary execution controls that the user asks for, with the monitor trap flag, as the processor allows.
abbrev pub trap_control : Vcpu → Vcpu → ℕ
trap_control v v' =
    in_field cpu_exec_ctrl0
      (ctrl0_value (bit_or (lower (v.page.word ctrl_word)) cpu_mtf) v.passthrough v'.vmx)

trap_flag :
    (x : ℕ) (p : Bool) (s : Vmx)
    → bit (in_field cpu_exec_ctrl0 (ctrl0_value (bit_or x cpu_mtf) p s)) 27
      ≡ bit s.fixed.ctrl_0.clr 27
unfolding ctrl0_value forced
trap_flag x p s =
    let set : ℕ = s.fixed.ctrl_0.set in
    let clr : ℕ = s.fixed.ctrl_0.clr in
    let more : ℕ = if p then 0 else s.fixed.ctrl_0.non_passthrough_set in
    let asked : ℕ = bit_or (bit_or (bit_or x cpu_mtf) set) more in
    let v : ℕ = bit_and asked clr in
    let e : bit v 27 ≡ bit clr 27 = omega (
      arith,
      bit-and 27 asked clr,
      bit-or 27 (bit_or (bit_or x cpu_mtf) set) more,
      bit-or 27 (bit_or x cpu_mtf) set,
      bit-or 27 x cpu_mtf,
    ) in
    elim (Bool-cases (has_bits v cpu_tpr_shadow)) [
      | inl f ↦ rw f (omega (arith, e))
      | inr f ↦ rw f (omega (arith, e, bit-or 27 v (bit_or cpu_cr8_load cpu_cr8_store)))
    ]

-- The guest is started with the whole state handed over. Where a stop is wanted, it had not been entered before,
-- an event is injected, and the monitor trap flag, bit 27, is in the execution controls if the processor has it.
pub record Started {ℓ} {H : Type ℓ} (v : Vcpu) (h : Host H) (v' : Vcpu) : Type 0 where
  pub entered_now : v'.has_entered ≡ true
  pub page_empty : v'.page.word mtd_word ≡ 0
  pub regs_empty : v'.vmx.regs.mtd ≡ 0
  pub trap : v'.has_pending_mtf_trap ≡ stop_wanted v h
  pub cause :
      (stop_wanted v h ≡ false)
      ⊎ ((v.has_entered ≡ false)
          × (injecting_event v ≡ true)
          × (v'.vmx.field cpu_exec_ctrl0 ≡ trap_control v v')
          × (bit (v'.vmx.field cpu_exec_ctrl0) 27 ≡ bit v'.vmx.fixed.ctrl_0.clr 27))

-- The user gets the poke reported, with the state of a guest that ran, or else with the page as it was.
pub record Stopped {ℓ} {H : Type ℓ} (v : Vcpu) (h : Host H) (v' : Vcpu) : Type 0 where
  pub wanted : stop_wanted v h ≡ true
  pub cleared : v'.poked ≡ false
  pub not_entered : v'.has_entered ≡ false
  pub reported : lower (v'.page.word exit_word) ≡ vmx_poked
  pub state :
      (v.has_entered ≡ true)
      ⊎ ((injecting_event v ≡ false)
          × ((k : ℕ) → (k ≡ exit_word) ⊎ (v'.page.word k ≡ v.page.word k)))

abbrev pub Outcome {ℓ} : {H : Type ℓ} → Vcpu → Host H → Next H → Type 0
Outcome v h (entered v' _) = Started v h v'
Outcome v h (failed v' _) = Started v h v' × (v'.exit_reason_shadow ≡ some refused)
Outcome v h (to_vmm v' _) = Stopped v h v'
Outcome v h (scheduled v' _) = (v'.has_entered ≡ v.has_entered) × (v'.poked ≡ stop_wanted v h)
Outcome v h (resumes _ _) = ⊥
Outcome v h panicked = ⊥

true-ne-false : true ≢ false
true-ne-false e = ground arith

-- What `loaded` leaves, and with it `enter`.
record Loaded (w v' : Vcpu) : Type 0 where
  entered_now : v'.has_entered ≡ true
  page_empty : v'.page.word mtd_word ≡ 0
  regs_empty : v'.vmx.regs.mtd ≡ 0
  trap : v'.has_pending_mtf_trap ≡ w.has_pending_mtf_trap
  control : (w.has_pending_mtf_trap ≡ false) ⊎ (v'.vmx.field cpu_exec_ctrl0 ≡ trap_control w v')

abbrev Entered {ℓ} : {H : Type ℓ} → Vcpu → Next H → Type 0
Entered w (entered v' _) = Loaded w v'
Entered w (failed v' _) = Loaded w v' × (v'.exit_reason_shadow ≡ some refused)
Entered w (to_vmm _ _) = ⊥
Entered w (scheduled _ _) = ⊥
Entered w (resumes _ _) = ⊥
Entered w panicked = ⊥

module _ {ℓ} {H : Type ℓ} (p : Processor H) where
  loaded_lem : (w : Vcpu) (k : Host H) → Loaded w (loaded p w k)
  unfolding loaded
  loaded_lem w k = record {
    entered_now = refl;
    page_empty = refl;
    regs_empty = elim (Bool-cases w.has_pending_mtf_trap) [ inl e ↦ rw e refl | inr e ↦ rw e refl ];
    trap = refl;
    control = elim (Bool-cases w.has_pending_mtf_trap) [ inl e ↦ inr (rw e refl) | inr e ↦ inl e ];
  }

  given_up :
      (w v' : Vcpu) (r : ℕ) → Loaded w v' → Loaded w (record v' { exit_reason_shadow = some r })
  given_up w v' r l = record {
    entered_now = l.entered_now;
    page_empty = l.page_empty;
    regs_empty = l.regs_empty;
    trap = l.trap;
    control = l.control;
  }

  enter-Entered : (w : Vcpu) (k : Host H) → Entered w (enter p w k)
  unfolding enter
  enter-Entered w k =
      let v' = loaded p w k in
      let rest = (p.load_guest_fpu (prepared p v' k).rest) in
      let l = loaded_lem w k in
      elim (Bool-cases rest.0) [
        | inr e ↦ rw e (given_up w v' refused l, refl)
        | inl e ↦ rw e (elim (Bool-cases (p.load_xcr0 v'.vmx.regs.rip rest.1).0) [
          | inr f ↦ rw f (given_up w v' refused l, refl)
          | inl f ↦ rw f l
        ])
      ]

  -- Why the guest is entered, of the state in which it is.
  abbrev Cause : Vcpu → Vcpu → Host H → Type 0
  Cause v w h =
      (stop_wanted v h ≡ false)
      ⊎ ((stop_wanted v h ≡ true)
          × (v.has_entered ≡ false)
          × (injecting_event v ≡ true)
          × (w.page.word ctrl_word ≡ v.page.word ctrl_word)
          × (w.passthrough ≡ v.passthrough))

  trap_control_lem :
      (v w v' : Vcpu)
      → w.page.word ctrl_word ≡ v.page.word ctrl_word
      → w.passthrough ≡ v.passthrough
      → trap_control w v' ≡ trap_control v v'
  trap_control_lem v w v' c q =
      ap
        (λ x. in_field cpu_exec_ctrl0 (ctrl0_value (bit_or (lower x) cpu_mtf) w.passthrough v'.vmx))
        c
      ∙ ap
          (λ b.
            in_field cpu_exec_ctrl0
              (ctrl0_value (bit_or (lower (v.page.word ctrl_word)) cpu_mtf) b v'.vmx))
          q

  Loaded-Started :
      (v w : Vcpu) (h : Host H) (v' : Vcpu)
      → w.has_pending_mtf_trap ≡ stop_wanted v h
      → Cause v w h
      → Loaded w v'
      → Started v h v'
  Loaded-Started v w h v' trap cause l = record {
    entered_now = l.entered_now;
    page_empty = l.page_empty;
    regs_empty = l.regs_empty;
    trap = l.trap ∙ trap;
    cause = elim cause [
      | inl quiet ↦ inl quiet
      | inr (asked, fresh, inj, c, q) ↦ elim l.control [
        | inl none_pending ↦ absurd (true-ne-false (sym asked ∙ sym trap ∙ none_pending))
        | inr g ↦
            let same = g ∙ trap_control_lem v w v' c q in
            inr (
              fresh,
              inj,
              same,
              ap (λ x. bit x 27) same
                  ∙ trap_flag (lower (v.page.word ctrl_word)) v.passthrough v'.vmx,
            )
      ]
    ];
  }

  -- `enter` after the decisions of `run`, of which these facts are left.
  Entered-Outcome :
      (v w : Vcpu) (h : Host H) (n : Next H)
      → w.has_pending_mtf_trap ≡ stop_wanted v h
      → Cause v w h
      → Entered w n
      → Outcome v h n
  Entered-Outcome v w h (entered v' _) trap cause l = Loaded-Started v w h v' trap cause l
  Entered-Outcome v w h (failed v' _) trap cause (l, e) = (Loaded-Started v w h v' trap cause l, e)
  Entered-Outcome v w h (to_vmm _ _) trap cause l = absurd l
  Entered-Outcome v w h (scheduled _ _) trap cause l = absurd l
  Entered-Outcome v w h (resumes _ _) trap cause l = absurd l
  Entered-Outcome v w h panicked trap cause l = absurd l

  -- What `pass_nmi` leaves of the virtual CPU, which has been made the current one.
  record Passed (v : Vcpu) (h : Host H) (v' : Vcpu) : Type 0 where
    stop : v'.poked ≡ stop_wanted v h
    ran : v'.has_entered ≡ v.has_entered
    injects : injecting_event v' ≡ injecting_event v
    control : v'.page.word ctrl_word ≡ v.page.word ctrl_word
    passes : v'.passthrough ≡ v.passthrough
    words : (k : ℕ) → (k ≡ exit_word) ⊎ (v'.page.word k ≡ v.page.word k)

  pass_nmi-Passed :
      (v : Vcpu) (h : Host H) → Passed v h (pass_nmi p (record v { vmx = make_current v.vmx }) h).0
  unfolding pass_nmi injecting_event put
  pass_nmi-Passed v h = elim (Bool-cases (v.passthrough && h.seen_spurious_nmi)) [
    | inl e ↦ rw e (record {
      stop = elim (Bool-cases v.poked) [ inl f ↦ rw f refl | inr f ↦ rw f (sym e) ];
      ran = refl;
      injects = refl;
      control = refl;
      passes = refl;
      words = λ k. elim (ℕ_discrete k exit_word) [ yes f ↦ inl f | no n ↦ inr (ground arith) ];
    })
    | inr e ↦ rw e (record {
      stop = elim (Bool-cases v.poked) [ inl f ↦ rw f refl | inr f ↦ rw f (sym e) ];
      ran = refl;
      injects = refl;
      control = refl;
      passes = refl;
      words = λ k. inr refl;
    })
  ]

  -- The state page after a stop: a guest that did not run leaves it alone but for the reason.
  written_back_lem :
      (tsc : ℕ) (v : Vcpu)
      → ((written_back tsc v).has_entered ≡ false)
        × ((written_back tsc v).exit_reason_shadow ≡ v.exit_reason_shadow)
        × ((v.has_entered ≡ true) ⊎ ((k : ℕ) → (written_back tsc v).page.word k ≡ v.page.word k))
  unfolding written_back
  written_back_lem tsc v = elim (Bool-cases v.has_entered) [
    | inl e ↦ rw e (refl, refl, inl refl)
    | inr e ↦ rw e (refl, refl, inr (λ k. refl))
  ]

  exit_reason_lem : (r : ℕ) (v : Vcpu) → v.exit_reason_shadow ≡ some r → exit_reason v ≡ (r, v)
  unfolding exit_reason
  exit_reason_lem r v e =
      subst
        (λ (o : Option ℕ).
          ◌≡◌ {A = ℕ × Vcpu}
            (elim o [
              | some r' ↦ (r', v)
              | none ↦
                  let r' = v.vmx.field exi_reason % 2 ^ 32 in
                  (r', record v { exit_reason_shadow = some r' })
            ])
            (r, v))
        (sym e) refl

  return_to_vmm_lem :
      (tsc r : ℕ) (v : Vcpu)
      → r < 2 ^ 32
      → v.exit_reason_shadow ≡ some r
      → ((return_to_vmm tsc v).poked ≡ false)
        × ((return_to_vmm tsc v).has_entered ≡ false)
        × (lower ((return_to_vmm tsc v).page.word exit_word) ≡ r)
        × ((v.has_entered ≡ true)
            ⊎ ((k : ℕ) → (k ≡ exit_word) ⊎ ((return_to_vmm tsc v).page.word k ≡ v.page.word k)))
  unfolding return_to_vmm put
  return_to_vmm_lem tsc r v small e =
      let w = written_back_lem tsc v in
      let known = exit_reason_lem r (written_back tsc v) (w.1 ∙ e) in
      rw known (
        refl,
        ap (λ (x : ℕ × Vcpu). x.1.has_entered) known ∙ w.0,
        omega arith,
        elim w.2 [
          | inl ran ↦ inl ran
          | inr same ↦ inr (λ k. elim (ℕ_discrete k exit_word) [
            | yes f ↦ inl f
            | no n ↦ inr (ground (arith, same k))
          ])
        ],
      )

  stops-Outcome :
      (v w : Vcpu) (h k : Host H)
      → Passed v h w
      → stop_wanted v h ≡ true
      → (w.has_entered ≡ true) ⊎ (not (injecting_event w) ≡ true)
      → Stopped v h (
          return_to_vmm (p.rdtsc k.rest) (
            synthesize_poked_exit
              (record w { exit_reason_shadow = none; has_pending_mtf_trap = false })))
  unfolding synthesize_poked_exit
  stops-Outcome v w h k passed asked cause =
      let w' : Vcpu =
        synthesize_poked_exit
          (record w { exit_reason_shadow = none; has_pending_mtf_trap = false }) in
      let r = return_to_vmm_lem (p.rdtsc k.rest) vmx_poked w' (omega arith) refl in
      record {
        wanted = asked;
        cleared = r.0;
        not_entered = r.1;
        reported = r.2;
        state = elim cause [
          | inl ran ↦ inl (sym passed.ran ∙ ran)
          | inr idle ↦ elim r.3 [
            | inl ran ↦ inl (sym passed.ran ∙ ran)
            | inr same ↦
                inr
                  (sym passed.injects ∙ not-true _ idle, λ n. unchanged n (same n) (passed.words n))
          ]
        ];
      }
    where
      unchanged :
          (n : ℕ) {a b c : ℕ}
          → (n ≡ exit_word) ⊎ (a ≡ b)
          → (n ≡ exit_word) ⊎ (b ≡ c)
          → (n ≡ exit_word) ⊎ (a ≡ c)
      unchanged n (inl e) y = inl e
      unchanged n (inr e) (inl f) = inl f
      unchanged n (inr e) (inr f) = inr (e ∙ f)

  go_on-Outcome : (v w : Vcpu) (h k : Host H) → Passed v h w → Outcome v h (go_on p w k)
  unfolding go_on
  go_on-Outcome v w h k passed =
      let w' : Vcpu = record w { exit_reason_shadow = none; has_pending_mtf_trap = false } in
      if_intro (Outcome v h) (not w.poked) _ _
        (λ e.
          let quiet = sym passed.stop ∙ not-true w.poked e in
          Entered-Outcome v w' h (enter p w' k) (sym quiet) (inl quiet) (enter-Entered w' k))
        (λ e.
          let asked = sym passed.stop ∙ not-false w.poked e in
          if_intro (Outcome v h) (w.has_entered || not (injecting_event w)) _ _
            (λ f. stops-Outcome v w h k passed asked (or-true w.has_entered _ f))
            (λ f.
              let (fresh, inj) = or-false w.has_entered _ f in
              let w'' : Vcpu = record w' { has_pending_mtf_trap = true } in
              Entered-Outcome v w'' h (enter p w'' k) (sym asked)
                (inr (
                  asked,
                  sym passed.ran ∙ fresh,
                  sym passed.injects ∙ not-false _ inj,
                  passed.control,
                  passed.passes,
                ))
                (enter-Entered w'' k)))

-- The owner runs a virtual CPU: if the hazards do not give the CPU to another context, the guest is started,
-- or refused by the FPU or XCR0 after that, or not started. It is started with a stop wanted only when it had
-- not been entered before and an event is to be injected; then its primary execution controls are those
-- that the user asks for with the monitor trap flag, as far as the processor allows them, and have
-- this flag if the processor has it. It is not started only when a stop is wanted, which is reported,
-- and when it had been entered before, or no event is to be injected and the page is as it was but for
-- the reason.
pub run-Outcome {ℓ} :
    {H : Type ℓ} (p : Processor H) (v : Vcpu) (h : Host H)
    → is_owner v h.ec ≡ true
    → Outcome v h (run p v h)
unfolding run
run-Outcome p v h own =
    let passed = pass_nmi-Passed p v h in
    let (w, k) = pass_nmi p (record v { vmx = make_current v.vmx }) h in
    if_intro (Outcome v h) (not (is_owner v h.ec)) _ _ (λ e. absurd (cc (not-true _ e)))
      (λ e.
        if_intro (Outcome v h) (not (p.handle_hazards (block_nmis p w k)).0) _ _
          (λ f. (passed.ran, passed.stop)) (λ f. go_on-Outcome p v w h _ passed))
