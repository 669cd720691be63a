-- ===== src/Payload/Narrative.antt =====
-- The narrative of an offering, in packages/core/src/offering-create-payload.ts.
use tool.Common.{
  ℕ, Bool, true, false, not, ◌&&◌, ◌||◌, none, some, List, [], ◌∷◌, length, leb, ltb, ◌==◌,
  if◌then◌else◌, Result, ok, err, Error, type_error, ◌>>=◌,
}
use tool.Common.Text.{Text, codes, ◌===◌, trim}
use tool.Js.{Value, string, Heap, snapshot_exact_record}
use tool.Arrays.{bounded_array}
use tool.Requirements.{utf8_encode}
use tool.Requirements.Keys.{is_high_surrogate, is_low_surrogate}
use tool.Payload.{or_rejected}

pub record OfferingNarrative : Type 0 where
  pub title : Text
  pub customer_problem : Text
  pub customer_use_cases : List Text
  pub use_of_funds : List Text
  pub risks : List Text

abbrev pub narrative_fields : List Text
narrative_fields =
    codes "title"
    ∷ codes "customerProblem"
    ∷ codes "customerUseCases"
    ∷ codes "useOfFunds"
    ∷ codes "risks"
    ∷ []

abbrev pub rejected : Error
rejected = type_error "invalid offering create payload"

abbrev pub is_control : ℕ → Bool
is_control c = leb c 0x1f || (leb 0x7f c && leb c 0x9f)

unfoldable pub has_control : Text → Bool
has_control [] = false
has_control (c ∷ s) = is_control c || has_control s

unfoldable pub has_unpaired_surrogate : Text → Bool
has_unpaired_surrogate [] = false
has_unpaired_surrogate (c ∷ []) = is_high_surrogate c || is_low_surrogate c
has_unpaired_surrogate (c ∷ d ∷ s) =
    let after_pair = has_unpaired_surrogate s in
    let after_unit = has_unpaired_surrogate (d ∷ s) in
    if is_high_surrogate c
    then (if is_low_surrogate d then after_pair else true)
    else if is_low_surrogate c
    then true
    else after_unit

unfoldable pub parse_narrative_string : ℕ → Value → Result Text
unfolding has_control has_unpaired_surrogate utf8_encode trim ◌===◌
parse_narrative_string maximum_bytes (string value) =
    if length value == 0
      || not (trim value === value)
      || has_control value
      || has_unpaired_surrogate value
      || ltb maximum_bytes (length (utf8_encode value))
    then err rejected
    else ok value
parse_narrative_string maximum_bytes _ = err rejected

unfoldable pub parse_strings : ℕ → List Value → Result (List Text)
unfolding parse_narrative_string
parse_strings maximum_bytes [] = ok []
parse_strings maximum_bytes (v ∷ vs) = do
  t ← parse_narrative_string maximum_bytes v
  ts ← parse_strings maximum_bytes vs
  ok (t ∷ ts)

-- One to six strings.
unfoldable pub parse_list : Heap → Value → Result (List Text)
unfolding bounded_array parse_strings
parse_list h value = or_rejected rejected (bounded_array 1 6 h value) >>= parse_strings 400

unfoldable pub narrative_of : Heap → List Value → Result OfferingNarrative
unfolding parse_narrative_string parse_list
narrative_of h (title ∷ problem ∷ use_cases ∷ funds ∷ risks ∷ []) = do
  title_text ← parse_narrative_string 100 title
  problem_text ← parse_narrative_string 1000 problem
  use_case_texts ← parse_list h use_cases
  fund_texts ← parse_list h funds
  risk_texts ← parse_list h risks
  ok (record {
    title = title_text;
    customer_problem = problem_text;
    customer_use_cases = use_case_texts;
    use_of_funds = fund_texts;
    risks = risk_texts;
  })
narrative_of h _ = err rejected

unfoldable pub parse_narrative : Heap → Value → Result OfferingNarrative
unfolding snapshot_exact_record narrative_of
parse_narrative h input = elim (snapshot_exact_record h input narrative_fields) [
  | none ↦ err rejected
  | some values ↦ narrative_of h values
]
