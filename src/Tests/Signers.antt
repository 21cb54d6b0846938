-- ===== src/Tests/Signers.antt =====
-- Two signers of LSI and two of the client, of whom two share a rank.
use contrats.Base.{ℕ, ◌≡◌, refl, false, List, [], ◌∷◌, All}
use contrats.Base.Result.{ok}
use contrats.Signature.Order.{
  SignerParty, SubmitterCommand, SigningPlan, lsi, client, preserved, client_then_lsi,
  plan_signing_order, sort_by_order, rank,
}
use contrats.Signature.Order.Plan.{AreAskedInOrder, is_first_by, plan_signing_order-AreAskedInOrder}

abbrev signer : SignerParty → ℕ → ℕ → SubmitterCommand
signer party name order = record {
  party = party;
  role_label = [];
  external_id = name ∷ [];
  full_name = [];
  email = [];
  signing_order = order;
  require_email2fa = false;
  fields = [];
}

abbrev entered : List SubmitterCommand
entered =
    signer lsi 1 0 ∷ signer client 2 4 ∷ signer lsi 3 7 ∷ signer client 4 4 ∷ signer client 5 2 ∷ []

abbrev planned : SigningPlan
planned = record {
  order = preserved;
  submitters =
      signer client 5 0
      ∷ signer client 2 1
      ∷ signer client 4 1
      ∷ signer lsi 1 2
      ∷ signer lsi 3 3
      ∷ [];
}

plan-run : plan_signing_order entered client_then_lsi ≡ ok planned
unfolding plan_signing_order sort_by_order rank
plan-run = refl

plan_signing_order-AreAskedInOrder_example :
    All
      (λ s. All (AreAskedInOrder (is_first_by client_then_lsi) planned s) planned.submitters)
      planned.submitters
plan_signing_order-AreAskedInOrder_example =
    plan_signing_order-AreAskedInOrder entered client_then_lsi plan-run
