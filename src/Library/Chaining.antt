-- ===== src/Library/Chaining.antt =====
-- A macro that sends a signal to another: the thread of one macro, its signal's dispatcher, and the
-- start of the other.
use libmacro.Prelude.{ℕ, ◌≡◌, ◌≢◌, refl, List, [], ◌∷◌, none, Bool, false, ◌==◌, ==_refl, arith}
use libmacro.Types.{interrupt}
use libmacro.Dispatcher.{dispatch}
use libmacro.Dispatcher.Dispatch.{dispatch_one}
use libmacro.Macro.Threads.{start, act}
use libmacro.Macro.Run.{Scene, Environment, at_least, deliver, dispatch_signals}
use libmacro.Library.{Library, macro_set, act_macro, receive}

-- What the thread of the macro at an address sees of the library, and the library that it sees
abbrev pub seen_by : ℕ → Library → Scene Library
seen_by this l = record { macro = l.macro_of this; globals = l.globals; world = l }

abbrev pub library_of : ℕ → Scene Library → Library
library_of this r = record (macro_set this r.macro r.world) { globals = r.globals }

-- The deliveries of `dispatchSignals` in a library: a dispatcher is asked without modifiers, and
-- `send` and the end of a wait are code of the signals and of the other threads.
abbrev pub library_environment :
    Bool
    → ℕ
    → (ℕ → Scene Library → Bool × Scene Library)
    → (Scene Library → Scene Library)
    → Environment Library
library_environment available this send resumed = record {
  dispatcher_of = λ s r. r.world.heap.dispatcher_of s;
  dispatch = λ d s r. (
    false,
    seen_by this (dispatch (receive available) (r.world.heap.net d) s 0 (library_of this r)).1,
  );
  send = send;
  resumed = resumed;
}

-- A thread of a macro that is in CONTINUE or PAUSE, whose next signal is not null and has a
-- dispatcher with another macro as its only receiver, goes on with the signals after it from a
-- library in which the other macro has been started, and the sending macro is as it was.
pub signal_starts :
    (available : Bool) (this b a : ℕ) (ss : List ℕ)
    (send : ℕ → Scene Library → Bool × Scene Library) (resumed : Scene Library → Scene Library)
    (l : Library)
    → at_least (l.macro_of this).interruptor interrupt ≡ false
    → a ≢ 0
    → l.heap.dispatcher_of a ≢ 0
    → (l.heap.net (l.heap.dispatcher_of a)).receivers ≡ b ∷ []
    → b ≢ 0
    → l.action_of b ≡ none
    → b ≢ this
    → let e = library_environment available this send resumed in
      (l' : Library) × (dispatch_signals e (a ∷ ss) (seen_by this l)
        ≡ dispatch_signals e ss (seen_by this l'))
      × (l'.macro_of b ≡ (start available l.globals (l.macro_of b)).macro)
      × (l'.globals ≡ (start available l.globals (l.macro_of b)).globals)
      × (l'.macro_of this ≡ l.macro_of this)
unfolding dispatch_signals receive act act_macro
signal_starts available this b a ss send resumed l going real there only real_b is_macro other =
    let again : Library = library_of this (seen_by this l) in
    let asked =
      dispatch_one (receive available) a 0 (l.heap.net (l.heap.dispatcher_of a)) b again only
        real_b in
    let after : Library = (act_macro available b again).1 in
    let not_null : (l.heap.dispatcher_of a == 0) ≡ false = ground arith in
    let sent : deliver (library_environment available this send resumed) a (seen_by this l)
        ≡ (false, seen_by this after) =
      simp (not_null, asked, is_macro) refl in
    let apart : (this == b) ≡ false = ground arith in
    let apart' : (b == this) ≡ false = ground arith in
    (
      after,
      ground (arith, sent),
      simp (apart, ==_refl b) refl,
      simp apart refl,
      simp (apart', ==_refl this) refl,
    )
