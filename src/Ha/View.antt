-- ===== src/Ha/View.antt =====
-- ha/hashburst_ha_agent.py: LeaseEngine._majority_view, over the status dictionaries of the voters.
pub mod Majority
use node_installer.Prelude.{
  ℕ, ◌+◌, String, Bool, ◌&&◌, List, [], ◌∷◌, ◌==◌, leb, ltb, eqb, if◌then◌else◌, ℤ, pos, ltb_ℤ,
  eqb_ℤ,
}
use node_installer.Text.{is_empty}
use node_installer.Json.{
  Json, Fields, PyInt, value, invalid, overflow, int, get, get_default, py_int, or_zero,
  text_or_empty,
}
use node_installer.Ha.Config.{Config, quorum}
use node_installer.Outcome.{Outcome, ok, exception}

abbrev pub max_ℤ : ℤ → ℤ → ℤ
max_ℤ a b = if ltb_ℤ a b then b else a

-- What one status says: its term does not parse, its remaining time does not parse, there is no
-- holder with time left, or there is one.
pub data Report : Type 0 where
  unreadable : Report
  broken : ℤ → Report
  vacant : ℤ → Report
  held : ℤ → String → Report

abbrev report_lease : ℤ → String → PyInt → Report
report_lease term holder (value n) =
    if ltb_ℤ (pos 0) n
    then (if is_empty holder then vacant term else held term holder)
    else vacant term
report_lease term holder _ = broken term

abbrev report_term : (Json → String) → Fields → PyInt → Report
report_term repr d (value term) =
    report_lease term (text_or_empty repr (get "holder" d))
      (py_int (or_zero (get_default "lease_remaining_ms" (int (pos 0)) d)))
report_term repr d _ = unreadable

unfoldable pub report : (Json → String) → Fields → Report
report repr d = report_term repr d (py_int (get_default "term" (int (pos 0)) d))

-- One entry of `counts`: a term and a holder with the number of voters that report them.
pub record Count : Type 0 where
  pub term : ℤ
  pub holder : String
  pub votes : ℕ

-- The equality of two keys of `counts`.
unfoldable pub same_key : ℤ → String → ℤ → String → Bool
same_key t h t' h' = eqb_ℤ t t' && h == h'

-- `counts[(term, holder)] = counts.get((term, holder), 0) + 1`
unfoldable pub count_in : ℤ → String → List Count → List Count
unfolding same_key
count_in t h [] = (record { term = t; holder = h; votes = 1 }) ∷ []
count_in t h (c ∷ cs) =
    if same_key c.term c.holder t h
    then (record c { votes = c.votes + 1 }) ∷ cs
    else c ∷ count_in t h cs

-- The loop over the responses.
unfoldable pub tally : List Report → ℤ → List Count → Outcome (ℤ × List Count)
tally [] max_term counts = ok (max_term, counts)
tally (unreadable ∷ rs) max_term counts = tally rs max_term counts
tally (broken t ∷ rs) max_term counts = exception
tally (vacant t ∷ rs) max_term counts = tally rs (max_ℤ max_term t) counts
tally (held t h ∷ rs) max_term counts = tally rs (max_ℤ max_term t) (count_in t h counts)

-- The greater by (votes, term); the first of two that are equal.
unfoldable pub better : Count → Count → Count
better c d =
    if ltb c.votes d.votes then d else if eqb c.votes d.votes && ltb_ℤ c.term d.term then d else c

-- `max(counts.items(), key=lambda item: (item[1], item[0][0]))`
unfoldable pub best : Count → List Count → Count
best c [] = c
best c (d ∷ ds) = best (better c d) ds

pub record View : Type 0 where
  pub max_term : ℤ
  pub holder : String
  pub holder_term : ℤ

abbrev pub no_holder : ℤ → View
no_holder m = record { max_term = m; holder = ""; holder_term = pos 0 }

abbrev pub choose : ℕ → ℤ × List Count → View
choose q (m, []) = no_holder m
choose q (m, c ∷ cs) =
    if leb q (best c cs).votes
    then record { max_term = m; holder = (best c cs).holder; holder_term = (best c cs).term }
    else no_holder m

abbrev pub chosen : ℕ → Outcome (ℤ × List Count) → Outcome View
chosen q (ok r) = ok (choose q r)
chosen q (Outcome.error c) = Outcome.error c
chosen q exception = exception

unfoldable pub majority_of : ℕ → List Report → Outcome View
majority_of q rs = chosen q (tally rs (pos 0) [])

abbrev pub reports : (Json → String) → List Fields → List Report
reports repr [] = []
reports repr (d ∷ ds) = report repr d ∷ reports repr ds

unfoldable pub majority_view : (Json → String) → Config → List Fields → Outcome View
unfolding majority_of tally count_in best better report quorum
majority_view repr cfg ds = majority_of (quorum cfg) (reports repr ds)
