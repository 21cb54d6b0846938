-- ===== src/Tests/Clauses.antt =====
-- The clauses of a contract beside those of its template.
use contrats.Base.{true, false, some, [], ◌∷◌, All, ◌≡◌, ◌↔◌, refl}
use contrats.ClauseDiff.{
  Clause, norm, lower_tags, replace_nbsp, collapse, join_tags, clause_of, has_clause, removed_from,
  diff_clauses,
}
use contrats.ClauseDiff.Unchanged.{IsUnchanged, no_deviation_iff}

-- « <P>A </P> <b>» and « <p>A </p><b>»
normal :
    norm (60 ∷ 80 ∷ 62 ∷ 65 ∷ 32 ∷ 60 ∷ 47 ∷ 80 ∷ 62 ∷ 32 ∷ 10 ∷ 60 ∷ 98 ∷ 62 ∷ [])
    ≡ 60 ∷ 112 ∷ 62 ∷ 65 ∷ 32 ∷ 60 ∷ 47 ∷ 112 ∷ 62 ∷ 60 ∷ 98 ∷ 62 ∷ []
unfolding norm lower_tags replace_nbsp collapse join_tags
normal = refl

-- « A&nbsp;B » and « A B »
spaces : norm (65 ∷ 38 ∷ 110 ∷ 98 ∷ 115 ∷ 112 ∷ 59 ∷ 66 ∷ []) ≡ 65 ∷ 32 ∷ 66 ∷ []
unfolding norm lower_tags replace_nbsp collapse join_tags
spaces = refl

abbrev object_clause : Clause
object_clause = record {
  key = 49 ∷ [];
  title = 79 ∷ [];
  body_html = 60 ∷ 80 ∷ 62 ∷ 65 ∷ [];
  required = true;
}

abbrev object_in_contract : Clause
object_in_contract = record {
  key = 49 ∷ [];
  title = 79 ∷ 32 ∷ [];
  body_html = 60 ∷ 112 ∷ 62 ∷ 65 ∷ [];
  required = false;
}

abbrev price_clause : Clause
price_clause = record { key = 50 ∷ []; title = 80 ∷ []; body_html = []; required = true }

missing_required :
    (diff_clauses
      (some (object_clause ∷ price_clause ∷ []))
      (object_in_contract ∷ [])).required_removed
    ≡ true
unfolding diff_clauses removed_from clause_of
missing_required = refl

no_deviation_iff_example :
    ((diff_clauses (some (object_clause ∷ [])) (object_in_contract ∷ [])).has_deviation ≡ false) ↔ (
      All (IsUnchanged (object_clause ∷ [])) (object_in_contract ∷ [])
      × All (λ t. has_clause (object_in_contract ∷ []) t.key ≡ true) (object_clause ∷ []))
no_deviation_iff_example = no_deviation_iff (object_clause ∷ []) (object_in_contract ∷ [])
