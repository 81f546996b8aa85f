-- ===== src/Program/Interrupts.antt =====
-- An `Interrupt` signal that a thread of a macro sends: to another macro, or to its own.
use libmacro.Prelude.{
  ℕ, ◌≡◌, ◌≢◌, ap, fun_ext, refl, List, [], ◌∷◌, none, Bool, true, false, ◌==◌, ◌&&◌, if◌then◌else◌,
  arith, Bool-cases, inl, inr, ==_refl, ==_iff,
}
use libmacro.Types.{Interrupt, interrupt, interrupt_all}
use libmacro.Text.{Text}
use libmacro.Error.{ok}
use libmacro.Dispatcher.Interface.{generic_dispatcher}
use libmacro.Signals.Interrupting
use libmacro.Macro.State.{Macro, running}
use libmacro.Macro.Dispatching.{Heap, update}
use libmacro.Macro.Dispatching.Removal.{NotNull}
use libmacro.Macro.Control.{same_interrupt}
use libmacro.Macro.Control.Interrupting.{
  interrupted, reapplied, set_interruptor_total, set_interruptor_same,
}
use libmacro.Macro.Run.{Scene, Environment, at_least, deliver, dispatch_signals}
use libmacro.Macro.Run.Interrupts.{dispatch_signals_cut}
use libmacro.Dispatcher.{Dispatcher}
use libmacro.Library.{macro_set}
use libmacro.Program.{
  interrupts, Program, interrupt_macro, interrupt_target, send_object, seen_in, program_of,
  program_environment,
}

update_same : {A : Type 0} (f : ℕ → A) (a : ℕ) → update f a (f a) ≡ f
update_same f a = fun_ext (λ b. elim (Bool-cases (a == b)) [
  | inl this_one ↦ rw this_one (ap f ((==_iff a b).0 this_one))
  | inr another ↦ rw another refl
])

-- A thread sees the program as it is.
pub program_of-seen_in : (this : ℕ) (p : Program) → program_of this (seen_in this p) ≡ p
program_of-seen_in this p =
    ap (λ f. record p { library = record (p.library) { macro_of = f } })
      (update_same p.library.macro_of this)

-- A signal that is not null and does not throw is sent, and the thread goes on with the others.
pub goes_to_next :
    {W : Type 0} (e : Environment W) (a : ℕ) (ss : List ℕ) (r r' : Scene W)
    → at_least r.macro.interruptor interrupt ≡ false
    → a ≢ 0
    → deliver e a r ≡ (false, r')
    → dispatch_signals e (a ∷ ss) r ≡ dispatch_signals e ss r'
unfolding dispatch_signals
goes_to_next e a ss r r' going real sent = ground (arith, sent)

-- A signal without a dispatcher is sent by its own `send`.
pub sent_itself :
    (available : Bool) (this a : ℕ) (resumed : Scene Program → Scene Program) (p p' : Program)
    → p.library.heap.dispatcher_of a ≡ 0
    → send_object (p.signal_of a) p ≡ ok p'
    → deliver (program_environment available this resumed) a (seen_in this p)
      ≡ (false, seen_in this p')
unfolding program_environment
sent_itself available this a resumed p p' no_dispatcher sent =
    simp (no_dispatcher, program_of-seen_in this p, sent) refl

-- The signal was sent by a macro that it has interrupted, or by one that goes on with the others.
pub cut_or_next :
    {W : Type 0} (e : Environment W) (a : ℕ) (ss : List ℕ) (r r' : Scene W) (own : Bool)
    → at_least r.macro.interruptor interrupt ≡ false
    → a ≢ 0
    → deliver e a r ≡ (false, r')
    → (own ≡ true → at_least r'.macro.interruptor interrupt ≡ true)
    → dispatch_signals e (a ∷ ss) r ≡ (if own then (false, r') else dispatch_signals e ss r')
unfolding dispatch_signals
cut_or_next e a ss r r' true going real sent over =
    dispatch_signals_cut e (a ∷ []) ss r r' (goes_to_next e a [] r r' going real sent) (over refl)
cut_or_next e a ss r r' false going real sent over = goes_to_next e a ss r r' going real sent

-- The program after an interrupt of a macro
abbrev pub after_interrupt : Interrupt → ℕ → Program → Heap Dispatcher → Program
after_interrupt v b p h =
    let m = p.library.macro_of b in
    record p {
      library = record (macro_set b (interrupted v m) p.library) { heap = h };
      resets = if same_interrupt v interrupt_all && running m then b ∷ p.resets else p.resets;
    }

pub interrupt_macro_total :
    (v : Interrupt) (b : ℕ) (p : Program)
    → let m = p.library.macro_of b in
      m.context ≢ 0
      → b ≢ 0
      → NotNull m.triggers
      → same_interrupt v m.interruptor ≡ false
      → (h : Heap Dispatcher) × (reapplied generic_dispatcher b v m p.library.heap ≡ ok h)
        × (interrupt_macro v b p ≡ ok (after_interrupt v b p h))
unfolding interrupt_macro
interrupt_macro_total v b p ctx real ns new =
    let (h, again, e) =
      set_interruptor_total generic_dispatcher b v (p.library.macro_of b) p.library.heap ctx real ns
        new in
    (h, again, simp e refl)

pub interrupt_macro_same :
    (v : Interrupt) (b : ℕ) (p : Program)
    → same_interrupt v (p.library.macro_of b).interruptor ≡ true
    → interrupt_macro v b p ≡ ok p
unfolding interrupt_macro
interrupt_macro_same v b p same =
    let l = p.library in
    let stays = set_interruptor_same generic_dispatcher b v (l.macro_of b) l.heap same in
    simp stays
      (ap (λ f. ok (record p { library = record l { macro_of = f } })) (update_same l.macro_of b))

send_interrupt :
    (v : Interrupt) (b : ℕ) (target_name : Text) (p p' : Program)
    → b ≢ 0
    → p.registry_of b ≡ none
    → interrupt_macro v b p ≡ ok p'
    → send_object (interrupts (record { target = b; target_name = target_name; value = v })) p
      ≡ ok p'
unfolding send_object interrupt_target Interrupting.send
send_interrupt v b target_name p p' real is_macro e =
    let null : (b == 0) ≡ false = ground arith in rw null (rw (interrupt_target, is_macro) e)

pub interrupted_value :
    (v : Interrupt) (m : Macro)
    → running m ≡ true
    → at_least (interrupted v m).interruptor interrupt ≡ at_least v interrupt
interrupted_value v m busy = ground arith

pub interrupt_sent :
    (available : Bool) (this b a : ℕ) (ss : List ℕ) (v : Interrupt) (target_name : Text)
    (resumed : Scene Program → Scene Program) (p : Program)
    → at_least (p.library.macro_of this).interruptor interrupt ≡ false
    → running (p.library.macro_of this) ≡ true
    → a ≢ 0
    → p.library.heap.dispatcher_of a ≡ 0
    → p.signal_of a ≡ interrupts (record { target = b; target_name = target_name; value = v })
    → b ≢ 0
    → p.registry_of b ≡ none
    → (p.library.macro_of b).context ≢ 0
    → NotNull (p.library.macro_of b).triggers
    → same_interrupt v (p.library.macro_of b).interruptor ≡ false
    → let e = program_environment available this resumed in
      let m = p.library.macro_of b in
      (p' : Program) × (p'.library.macro_of b ≡ interrupted v m)
      × ((c : ℕ) → c ≢ b → p'.library.macro_of c ≡ p.library.macro_of c)
      × (reapplied generic_dispatcher b v m p.library.heap ≡ ok p'.library.heap)
      × (p'.resets
          ≡ (if same_interrupt v interrupt_all && running m then b ∷ p.resets else p.resets))
      × (dispatch_signals e (a ∷ ss) (seen_in this p) ≡ (
          if b == this && at_least v interrupt
          then (false, seen_in this p')
          else dispatch_signals e ss (seen_in this p')))
interrupt_sent available this b a ss v target_name resumed p going busy real no_dispatcher is_one
      real_b is_macro ctx ns new =
    let (h, again, e) = interrupt_macro_total v b p ctx real_b ns new in
    let p' = after_interrupt v b p h in
    let sent : send_object (p.signal_of a) p ≡ ok p' =
      rw is_one (send_interrupt v b target_name p p' real_b is_macro e) in
    let own : (b == this && at_least v interrupt) ≡ true
        → at_least (p'.library.macro_of this).interruptor interrupt ≡ true =
      λ both. ground (arith, interrupted_value v (p.library.macro_of b)) in
    (
      p',
      simp (==_refl b) refl,
      λ c other. ground arith,
      again,
      refl,
      cut_or_next (program_environment available this resumed) a ss (seen_in this p)
          (seen_in this p') (b == this && at_least v interrupt) going real
          (sent_itself available this a resumed p p' no_dispatcher sent) own,
    )
