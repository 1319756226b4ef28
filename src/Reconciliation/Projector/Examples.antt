-- ===== src/Reconciliation/Projector/Examples.antt =====
-- An authorization that is delivered after its capture, and a capture that is delivered twice.
use payment_gateway.Base.{
  ◌≡◌, ◌⊎◌, refl, ℕ, ◌≤◌, false, Option, none, some, List, [], ◌∷◌, Member, inl, inr, text_eq,
  if◌then◌else◌,
}
use payment_gateway.Base.Dict.{lookup}
use payment_gateway.Base.Int.{pos}
use payment_gateway.Money.{Money}
use payment_gateway.Ids.{parse, cut_last}
use payment_gateway.Reconciliation.Record.{PaymentRecord, RecordKind}
use payment_gateway.Reconciliation.Store.{
  new_store, uuid_eq, injected, upsert_record, mark_processed, within_tx,
}
use payment_gateway.Reconciliation.Projector.{
  Body, EventType, PaymentEvent, Projector, handle_payment_event, project_payment_event,
  uuid_from_public_id,
}
use payment_gateway.Reconciliation.Projector.Newest.{
  Delivery, deliver, first_seen, deliver-keeps_newest,
}

abbrev usd : ℕ → Money
usd n = record { amount_minor = pos n; currency = "USD" }

abbrev a_body : Body
a_body = record {
  refund_id = "";
  dispute_id = "";
  provider = "mock";
  provider_reference = "ch_1";
  amount = some (usd 1000);
  total_captured_amount = none;
  fee = some (usd 30);
  is_won = false;
}

abbrev an_event : EventType → ℕ → PaymentEvent
an_event t version = record {
  event_type = t;
  occurred_at = some version;
  merchant_id = "m";
  payment_id = "p";
  payment_version = version;
  payment_status = "PAYMENT_STATUS_UNSPECIFIED";
  body = λ _. a_body;
}

abbrev a_projector : Projector
a_projector = record {
  consumer_name = "recon";
  unmarshal = λ s.
      if text_eq s "captured"
      then some (an_event EventType.payment_captured 3)
      else if text_eq s "authorized"
      then some (an_event EventType.payment_authorized 2)
      else none;
  parse_uuid = λ _. none;
  sha1_uuid = λ s. if text_eq s "p" then 5 else 6;
  now = 100;
}

abbrev messages : List Delivery
messages = ("e2", "captured") ∷ ("e1", "authorized") ∷ ("e2", "captured") ∷ ("e3", "broken") ∷ []

abbrev authorization : PaymentRecord
authorization = record {
  id = 5;
  kind = RecordKind.payment;
  public_id = "p";
  merchant_id = 6;
  provider = "mock";
  provider_reference = "ch_1";
  amount = usd 1000;
  fee = some (usd 30);
  status = "authorized";
  occurred_at = 2;
  source_seq = 2;
  created_at = 100;
  updated_at = 100;
}

-- The capture, which is newer, was delivered first.
authorization_seen : Member authorization (first_seen a_projector messages [])
unfolding project_payment_event uuid_from_public_id parse cut_last
authorization_seen = inr (inl refl)

deliver-keeps_newest_example :
    (k : PaymentRecord) × (lookup uuid_eq 5 (deliver a_projector messages new_store).records
      ≡ some k)
    × (2 ≤ k.source_seq)
    × (Member k (first_seen a_projector messages []) ⊎ (none ≡ some k))
deliver-keeps_newest_example =
    deliver-keeps_newest a_projector messages new_store authorization refl authorization_seen

abbrev sequence : Option PaymentRecord → Option ℕ
sequence none = none
sequence (some r) = some r.source_seq

-- The capture stays, and the repetition and the broken message leave nothing.
capture_stays :
    (sequence (lookup uuid_eq 5 (deliver a_projector messages new_store).records) ≡ some 3)
    × ((deliver a_projector messages new_store).tx_count ≡ 4)
unfolding handle_payment_event project_payment_event uuid_from_public_id parse cut_last
    upsert_record injected mark_processed within_tx
capture_stays = (refl, refl)
