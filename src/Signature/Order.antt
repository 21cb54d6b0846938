-- ===== src/Signature/Order.antt =====
-- packages/domain/src/signature/signing-order.ts, with the types that it takes from
-- e-signature-provider.port.ts. `sort` is the language's stable sort, here by insertion, and
-- `new Set` keeps the first of equal values.
pub mod Rank
pub mod Sorting
pub mod Plan
pub mod Relative
use Prim.Native.Nat.{max}
use contrats.Base.{
  ℕ, ◌+◌, Bool, true, false, not, Option, none, some, List, [], ◌∷◌, ◌++◌, map, filter, leb, ◌==◌,
  if◌then◌else◌,
}
use contrats.Base.Text.{Text}
use contrats.Base.Result.{Result, ok, err}

pub data SignerParty : Type 0 where
  lsi client : SignerParty

pub data SigningOrderPolicy : Type 0 where
  client_then_lsi lsi_then_client parallel as_defined : SigningOrderPolicy

-- `DEFAULT_SIGNING_ORDER`
abbrev pub default_signing_order : SigningOrderPolicy
default_signing_order = client_then_lsi

pub record SubmitterField : Type 0 where
  pub name : Text
  pub default_value : Text
  pub readonly : Bool

pub record SubmitterCommand : Type 0 where
  pub party : SignerParty
  pub role_label : Text
  pub external_id : Text
  pub full_name : Text
  pub email : Text
  pub signing_order : ℕ
  pub require_email2fa : Bool
  pub fields : List SubmitterField

pub data ProviderOrder : Type 0 where
  preserved random : ProviderOrder

pub record SigningPlan : Type 0 where
  pub order : ProviderOrder
  pub submitters : List SubmitterCommand

-- `new Error('Aucun signataire : rien à planifier')`
pub data PlanError : Type 0 where
  no_submitter : PlanError

unfoldable pub resolve_signing_policy :
    Option SigningOrderPolicy → Option ProviderOrder → SigningOrderPolicy
resolve_signing_policy (some policy) order = policy
resolve_signing_policy none (some random) = parallel
resolve_signing_policy none (some preserved) = as_defined
resolve_signing_policy none none = default_signing_order

-- `[...submitters].sort((a, b) => a.signingOrder - b.signingOrder)`
insert_by_order : SubmitterCommand → List SubmitterCommand → List SubmitterCommand
insert_by_order s [] = s ∷ []
insert_by_order s (t ∷ ts) =
    if leb s.signing_order t.signing_order then s ∷ t ∷ ts else t ∷ insert_by_order s ts

unfoldable pub sort_by_order : List SubmitterCommand → List SubmitterCommand
unfolding insert_by_order
sort_by_order [] = []
sort_by_order (s ∷ ss) = insert_by_order s (sort_by_order ss)

-- `[...new Set(orders)]`
unfoldable pub distinct : List ℕ → List ℕ
distinct [] = []
distinct (k ∷ ks) = k ∷ filter (λ j. not (j == k)) (distinct ks)

-- `distinct.indexOf(k)`, for a `k` that is there
unfoldable pub index_of : ℕ → List ℕ → ℕ
index_of k [] = 0
index_of k (j ∷ js) = if j == k then 0 else index_of k js + 1

abbrev pub orders : List SubmitterCommand → List ℕ
orders = map (λ s. s.signing_order)

abbrev pub renumber : (ℕ → ℕ) → SubmitterCommand → SubmitterCommand
renumber f s = record s { signing_order = f s.signing_order }

unfoldable pub rank : List SubmitterCommand → ℕ → List SubmitterCommand
unfolding distinct index_of
rank sorted offset = map (renumber (λ k. offset + index_of k (distinct (orders sorted)))) sorted

abbrev pub is_client : SignerParty → Bool
is_client client = true
is_client lsi = false

-- `Math.max(...orders)`, of 0 or more numbers
abbrev pub maximum : List ℕ → ℕ
maximum [] = 0
maximum (k ∷ ks) = max k (maximum ks)

-- `firstGroup.length === 0 ? 0 : Math.max(...) + 1`
abbrev pub next_order : List SubmitterCommand → ℕ
next_order [] = 0
next_order (s ∷ ss) = maximum (orders (s ∷ ss)) + 1

-- CLIENT_THEN_LSI and LSI_THEN_CLIENT: `is_first` tells the party that signs first.
plan_by_party : (SignerParty → Bool) → List SubmitterCommand → SigningPlan
plan_by_party is_first sorted =
    let first_group = rank (filter (λ s. is_first s.party) sorted) 0 in
    let second_group =
      rank (filter (λ s. not (is_first s.party)) sorted) (next_order first_group) in
    record { order = preserved; submitters = first_group ++ second_group }

plan_by_policy : SigningOrderPolicy → List SubmitterCommand → SigningPlan
unfolding plan_by_party
plan_by_policy parallel sorted = record {
  order = random;
  submitters = map (renumber (λ k. 0)) sorted;
}
plan_by_policy as_defined sorted = record { order = preserved; submitters = sorted }
plan_by_policy client_then_lsi sorted = plan_by_party is_client sorted
plan_by_policy lsi_then_client sorted = plan_by_party (λ p. not (is_client p)) sorted

unfoldable pub plan_signing_order :
    List SubmitterCommand → SigningOrderPolicy → Result PlanError SigningPlan
unfolding plan_by_policy
plan_signing_order [] policy = err no_submitter
plan_signing_order (s ∷ ss) policy = ok (plan_by_policy policy (sort_by_order (s ∷ ss)))
