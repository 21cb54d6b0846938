-- ===== src/ClauseDiff.antt =====
-- packages/domain/src/templates/clause-diff.ts: how a contract differs from its template.
pub mod Unchanged
use contrats.Base.{
  ℕ, zero, suc, ◌+◌, ◌<◌, Bool, true, false, not, ◌&&◌, ◌||◌, ◌==◌, ltb, leb, Option, none, some,
  List, [], ◌∷◌, ◌++◌, length, filter, any, map, is_some, if◌then◌else◌,
}
use contrats.Base.Text.{Text, is_space, trim, trim_start}
use contrats.Base.Order.{text_eqb}

-- `required` is `!!t.required`; the clauses of a contract have none.
pub record Clause : Type 0 where
  pub key : Text
  pub title : Text
  pub body_html : Text
  pub required : Bool

-- `[a-z0-9]` with the flag `i`
abbrev is_tag_char : ℕ → Bool
is_tag_char c = (leb 97 c && leb c 122) || (leb 65 c && leb c 90) || (leb 48 c && leb c 57)

-- `toLowerCase` of a letter or a digit
abbrev lower : ℕ → ℕ
lower c = if leb 65 c && leb c 90 then c + 32 else c

-- Where the search for `<\/?([a-z0-9]+)` stands: outside of a match, past `<`, past `</`, in the name.
pub data TagState : Type 0 where
  outside opened slashed in_name : TagState

abbrev next_state : TagState → ℕ → TagState
next_state outside c = if c == 60 then opened else outside
next_state opened c =
    if c == 60
    then opened
    else if c == 47
    then slashed
    else if is_tag_char c
    then in_name
    else outside
next_state slashed c = if c == 60 then opened else if is_tag_char c then in_name else outside
next_state in_name c = if c == 60 then opened else if is_tag_char c then in_name else outside

abbrev lower_in : TagState → ℕ → ℕ
lower_in in_name c = lower c
lower_in _ c = c

unfoldable pub lower_tags : TagState → Text → Text
lower_tags state [] = []
lower_tags state (c ∷ s) = lower_in (next_state state c) c ∷ lower_tags (next_state state c) s

-- « &nbsp; »
abbrev starts_nbsp : Text → Bool
starts_nbsp (c1 ∷ c2 ∷ c3 ∷ c4 ∷ c5 ∷ c6 ∷ s) =
    c1 == 38 && c2 == 110 && c3 == 98 && c4 == 115 && c5 == 112 && c6 == 59
starts_nbsp _ = false

-- `replace(/&nbsp;/g, ' ')`, with the characters of a match that are still to pass over.
unfoldable pub replace_nbsp : ℕ → Text → Text
replace_nbsp skip [] = []
replace_nbsp (suc skip) (c ∷ s) = replace_nbsp skip s
replace_nbsp zero (c ∷ s) =
    let next = replace_nbsp zero s in
    let after = replace_nbsp 5 s in if starts_nbsp (c ∷ s) then 32 ∷ after else c ∷ next

-- `replace(/\s+/g, ' ')`, with whether the last character was white.
unfoldable pub collapse : Bool → Text → Text
collapse white [] = []
collapse white (c ∷ s) =
    let on_white = collapse true s in
    let on_other = collapse false s in
    if is_space c then (if white then on_white else 32 ∷ on_white) else c ∷ on_other

abbrev opens_tag : Text → Bool
opens_tag [] = false
opens_tag (c ∷ s) = c == 60

-- `replace(/>\s+</g, '><')`, with whether only white space lies between the last `>` and here.
unfoldable pub join_tags : Bool → Text → Text
join_tags after_tag [] = []
join_tags after_tag (c ∷ s) =
    let on_white = join_tags after_tag s in
    let on_other = join_tags (c == 62) s in
    if is_space c
    then (if after_tag && opens_tag (trim_start s) then on_white else c ∷ on_white)
    else c ∷ on_other

unfoldable pub norm : Text → Text
unfolding lower_tags replace_nbsp collapse join_tags
norm html = trim (join_tags false (collapse false (replace_nbsp 0 (lower_tags outside html))))

-- `new Map(clauses.map((c) => [c.key, c]))` and its `get`: of two clauses with one key the last counts.
unfoldable pub clause_of : Text → List Clause → Option Clause
clause_of key [] = none
clause_of key (c ∷ clauses) = elim (clause_of key clauses) [
  | some last ↦ some last
  | none ↦ if text_eqb c.key key then some c else none
]

abbrev pub has_clause : List Clause → Text → Bool
has_clause clauses key = is_some (clause_of key clauses)

pub record AddedClause : Type 0 where
  pub key : Text
  pub title : Text

pub record RemovedClause : Type 0 where
  pub key : Text
  pub title : Text
  pub required : Bool

pub record ModifiedClause : Type 0 where
  pub key : Text
  pub title : Text
  pub title_changed : Bool
  pub body_changed : Bool

pub record ClauseDiff : Type 0 where
  pub added : List AddedClause
  pub removed : List RemovedClause
  pub modified : List ModifiedClause
  pub has_deviation : Bool
  pub required_removed : Bool

abbrev pub added_clause : Clause → AddedClause
added_clause c = record { key = c.key; title = c.title }

abbrev pub removed_clause : Clause → RemovedClause
removed_clause t = record { key = t.key; title = t.title; required = t.required }

-- `tpl.get(c.key)!`: the key was found before.
abbrev pub compare_with : Clause → Option Clause → ModifiedClause
compare_with c none = record {
  key = c.key;
  title = c.title;
  title_changed = false;
  body_changed = false;
}
compare_with c (some t) = record {
  key = c.key;
  title = c.title;
  title_changed = not (text_eqb (trim t.title) (trim c.title));
  body_changed = not (text_eqb (norm t.body_html) (norm c.body_html));
}

abbrev pub compared_clause : List Clause → Clause → ModifiedClause
compared_clause template c = compare_with c (clause_of c.key template)

abbrev pub is_changed : ModifiedClause → Bool
is_changed m = m.title_changed || m.body_changed

unfoldable pub added_to : List Clause → List Clause → List AddedClause
unfolding clause_of
added_to template contract =
    map added_clause (filter (λ c. not (has_clause template c.key)) contract)

unfoldable pub removed_from : List Clause → List Clause → List RemovedClause
unfolding clause_of
removed_from template contract =
    map removed_clause (filter (λ t. not (has_clause contract t.key)) template)

unfoldable pub modified_in : List Clause → List Clause → List ModifiedClause
unfolding clause_of norm
modified_in template contract =
    filter is_changed
      (map (compared_clause template) (filter (λ c. has_clause template c.key) contract))

-- A contract written without a template has nothing to differ from.
unfoldable pub diff_clauses : Option (List Clause) → List Clause → ClauseDiff
unfolding added_to removed_from modified_in
diff_clauses none contract = record {
  added = [];
  removed = [];
  modified = [];
  has_deviation = false;
  required_removed = false;
}
diff_clauses (some template) contract = record {
  added = added_to template contract;
  removed = removed_from template contract;
  modified = modified_in template contract;
  has_deviation = ltb 0 (
      length (added_to template contract)
      + length (removed_from template contract)
      + length (modified_in template contract));
  required_removed = any (λ r. r.required) (removed_from template contract);
}
