-- ===== src/Engine/Verifier/Stopped.antt =====
-- Money for a case that was stopped and still counts as open.
use razorpay_buildathon.Base.{String}
use razorpay_buildathon.Engine.Verifier.{Books, settle_obligation}

-- The books with the obligation marked as settled.
abbrev pub marked : String → Books → Books
marked ob b = record b { obligations = settle_obligation ob b.obligations }
