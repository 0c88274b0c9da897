-- ===== src/Examples/Money.antt =====
-- A payment for an obligation whose case is open.
use razorpay_buildathon.Base.{none, some, [], ◌∷◌}
use razorpay_buildathon.Core.Types.{payment_failure}
use razorpay_buildathon.Engine.Reconciler.{InboundSettlement, ObligationRow}
use razorpay_buildathon.Engine.Verifier.{Books}
use razorpay_buildathon.Examples.Parking.{expired_store}
use razorpay_buildathon.Examples.Cases.{store}

abbrev order : ObligationRow
order = record {
  id = "ob_1";
  merchant_id = "merchant_1";
  customer_id = "customer_1";
  obligation_type = payment_failure;
  amount_paise = 50000;
  due_at = 0;
  external_ref = "order_1";
  virtual_account = none;
  state = "overdue";
}

abbrev pub books : Books
books = record {
  attempts = [];
  obligations = order ∷ [];
  settlements = [];
  db = store;
  ledger = [];
}

abbrev payment : InboundSettlement
payment = record {
  id = "settlement_1";
  merchant_id = "merchant_1";
  amount_paise = 50000;
  source = "webhook";
  reference = some "order_1";
  idem_key = none;
  virtual_account = none;
}

abbrev expired_books : Books
expired_books = record books { db = expired_store }
