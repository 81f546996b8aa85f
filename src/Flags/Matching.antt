-- ===== src/Flags/Matching.antt =====
-- mcr/inline.h: each trigger mode as a relation between two sets of flags.
use libmacro.Prelude.{ℕ, bit_and, bit_or, ◌≡◌, ◌≢◌, ◌↔◌, true, arith, ==_iff}
use libmacro.Types.{
  TriggerMode, mode_value, equal_mode, all_mode, none_mode, exclusive_mode, inequal_mode,
  match_mode, any_mode, user_mode,
}
use libmacro.Word.{IsWord, Subset, Disjoint, bit_and-eq-left, bit_or-eq-left, bit_and-eq-zero}
use libmacro.Flags.{trigger_mode_match}

-- What the code takes a mode to mean, of the flags to match and the incoming ones.
abbrev pub Matches : TriggerMode → ℕ → ℕ → Type 0
Matches equal_mode m i = m ≡ i
Matches all_mode m i = Subset m i
Matches none_mode m i = Disjoint m i
Matches exclusive_mode m i = Subset i m
Matches inequal_mode m i = m ≢ i
Matches match_mode m i = ⊥
Matches any_mode m i = ¬ Disjoint m i
Matches user_mode m i = ⊥

-- On words, MCR_TM_EQUAL matches equal flags, MCR_TM_ALL incoming flags that have all to match,
-- MCR_TM_NONE those that have none of them, MCR_TM_EXCLUSIVE those that have no others, whether
-- they have all or not, MCR_TM_INEQUAL different flags, and MCR_TM_ANY those that have one of them;
-- MCR_TM_MATCH and MCR_TM_USER never match.
pub trigger_mode_match-Matches :
    (t : TriggerMode) (m i : ℕ)
    → IsWord m
    → IsWord i
    → (trigger_mode_match (mode_value t) m i ≡ true) ↔ Matches t m i
unfolding trigger_mode_match
trigger_mode_match-Matches equal_mode m i wm wi = ==_iff m i
trigger_mode_match-Matches all_mode m i wm wi =
    let test = ==_iff (bit_and m i) m in
    let sets = bit_and-eq-left m i wm in (λ h. sets.0 (test.0 h), λ s. test.1 (sets.1 s))
trigger_mode_match-Matches none_mode m i wm wi =
    let test = ==_iff (bit_and m i) 0 in
    let sets = bit_and-eq-zero m i wm in (λ h. sets.0 (test.0 h), λ s. test.1 (sets.1 s))
trigger_mode_match-Matches exclusive_mode m i wm wi =
    let test = ==_iff (bit_or m i) m in
    let sets = bit_or-eq-left m i wm wi in (λ h. sets.0 (test.0 h), λ s. test.1 (sets.1 s))
trigger_mode_match-Matches inequal_mode m i wm wi = (λ h e. ground arith, λ ne. ground arith)
trigger_mode_match-Matches match_mode m i wm wi = (λ h. cc, λ b. absurd b)
trigger_mode_match-Matches any_mode m i wm wi =
    let sets = bit_and-eq-zero m i wm in
    (
      λ h d. let e = sets.1 d in ground arith,
      λ n. let f : bit_and m i ≢ 0 = λ e. n (sets.0 e) in ground arith,
    )
trigger_mode_match-Matches user_mode m i wm wi = (λ h. cc, λ b. absurd b)
