-- ===== src/Tests/Ipc.antt =====
-- Calls and answers at a concrete state.
use hedron.Prelude.{ℕ, ◌+◌, ◌≤◌, ◌≡◌, refl, arith, true, false, none, some, if◌then◌else◌, ◌==◌}
use mathlib.Core.Option.{none-ne-some}
use hedron.Registers.{Regs}
use hedron.Utcb.{Utcb}
use hedron.Refcount.{last_ref}
use hedron.Ipc.State.{xcpu, Ipc, Portal, Services, chain_end}
use hedron.Ipc.State.Cont.{ret_user_sysexit, recv_user}
use hedron.Ipc.State.Next.{to_user}
use hedron.Ipc.Reply.{reply, sys_reply}
use hedron.Ipc.Call.{send_msg_step, sys_call_step}
use hedron.Ipc.Linked.{Linked, Sound, Fine, follow, chain_end_lem, some_given}
use hedron.Ipc.Steps.{run_state, run_state-Linked}
use hedron.Ipc.Bind.{started, Starts, started-Starts, bound_rank}
use hedron.Ipc.Answer.{sys_reply-Fine}
use hedron.Ipc.Calls.{sys_call_step-Fine, send_msg_step-Fine}
use hedron.Ipc.Roundtrip.{Restored, reply-sys_call}

abbrev page : Utcb
page = record {
  items = 0;
  xlt = record { value = 0 };
  del = record { value = 0 };
  tls = 0;
  word = λ _. 7;
}

abbrev registers : Regs
registers = record {
  r15 = 0;
  r14 = 0;
  r13 = 0;
  r12 = 0;
  r11 = 0;
  r10 = 0;
  r9 = 0;
  r8 = 0;
  rdi = 0;
  rsi = 0;
  rbp = 0;
  cr2 = 0;
  rbx = 0;
  rdx = 0;
  rcx = 0;
  rax = 0;
  err = 0;
  vec = 0;
  rip = 0;
  cs = 0;
  rfl = 0;
  rsp = 0;
  ss = 0;
  exc_bitmap = 0;
  mtd = 0;
}

-- Context 1 runs, context 2 waits for a message.
abbrev start : Ipc ℕ
start = record {
  cont = λ e. if e == 2 then none else some ret_user_sysexit;
  rcap = λ _. none;
  partner = λ _. none;
  next = λ _. none;
  pd = λ _. 9;
  cpu = λ _. 0;
  glb = λ _. false;
  evt = λ _. 0;
  ref = λ _. 5;
  regs = λ _. registers;
  utcb = λ _. page;
  current = 1;
  sc_ec = 1;
  sc_ref = 4;
  ctr_link = 0;
  ctr_loop = 0;
  rest = 0;
}

abbrev portal : Portal
portal = record { ec = 2; mtd = 1; ip = 4096; id = 3 }

abbrev services : Services ℕ
services = record {
  portal = λ _ _. some portal;
  semaphore = λ _ _. none;
  xfer_items = λ i w. some (i.from, w);
  transfer_fpu = λ _ _ w. w + 1;
  rcu_call = λ _ w. w;
  dn = λ _ _ _ next w. (true, next, false, w);
}

start-Linked : Linked start (λ _. 0)
start-Linked = record {
  calls = λ e p h. absurd (none-ne-some p h);
  called = λ e p h. absurd (none-ne-some e h);
  busy = λ e p h. absurd (none-ne-some e h);
  idle = λ e h. refl;
  falls = λ e p h. absurd (none-ne-some p h);
  local = λ e p h. refl;
  held = λ e. ground arith;
}

start-Sound : Sound start (λ _. 0) 1
start-Sound = record {
  linked = start-Linked;
  runs = record { leaf = refl; ready = some_given ret_user_sysexit };
  room = λ e. omega arith;
  low = λ e. omega arith;
}

-- Context 1 has called context 2.
abbrev called : Ipc ℕ
called = started ret_user_sysexit recv_user portal start

called-Starts : Starts called (bound_rank (λ _. 0) 2) 2
called-Starts =
    started-Starts services start (λ _. 0) ret_user_sysexit recv_user portal start-Linked
      start-Sound.runs start-Sound.room refl refl

-- Context 2 serves context 1.
abbrev serving : Ipc ℕ
serving =
    run_state called (bound_rank (λ _. 0) 2) called-Starts.linked called-Starts.room services 2

serving-Linked : Linked serving (bound_rank (λ _. 0) 2)
serving-Linked =
    run_state-Linked called (bound_rank (λ _. 0) 2) called-Starts.linked called-Starts.room services
      2

serving-Sound : Sound serving (bound_rank (λ _. 0) 2) 2
serving-Sound = record {
  linked = serving-Linked;
  runs = record { leaf = refl; ready = some_given recv_user };
  room = λ e. ground arith;
  low = λ e. ground arith;
}

sys_call_step-Fine_example : Fine (sys_call_step services 1 start)
sys_call_step-Fine_example = sys_call_step-Fine services 1 (λ _. 0) start start-Sound (omega arith)

send_msg_step-Fine_example : Fine (send_msg_step services 1 ret_user_sysexit start)
send_msg_step-Fine_example =
    send_msg_step-Fine services 1 (λ _. 0) ret_user_sysexit start start-Sound (omega arith)

sys_reply-Fine_example : Fine (sys_reply services 2 serving)
sys_reply-Fine_example =
    sys_reply-Fine services 2 (bound_rank (λ _. 0) 2) serving serving-Sound
      (λ i w. some_given (i.from, w))

chain_end_lem_example :
    (last d : ℕ) × (chain_end 2 called.partner 1 0 ≡ some (last, 0 + d))
    × (follow d called.partner 1 ≡ some last)
    × (called.partner last ≡ none)
    × (d ≤ 1)
chain_end_lem_example =
    chain_end_lem called (bound_rank (λ _. 0) 2) 2 1 0 called-Starts.linked (omega arith)

reply-sys_call_example :
    (k' k'' : Ipc ℕ) × (sys_call_step services 1 start ≡ to_user 2 k')
    × (reply services 1 none none k' ≡ to_user 1 k'')
    × Restored start k'' 2
unfolding xcpu last_ref
reply-sys_call_example =
    reply-sys_call services start (λ _. 0) 1 portal start-Sound (omega arith) refl refl refl
      (omega arith) refl
