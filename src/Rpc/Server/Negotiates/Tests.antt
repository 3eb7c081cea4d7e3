-- ===== src/Rpc/Server/Negotiates/Tests.antt =====
-- A negotiation between dimensions that models have, whose projection is too large for a message.
use aptp.Prelude.{◌≡◌, refl, inl, inr, some, arith}
use aptp.Float.{Fixed, fixed_float}
use aptp.Error.{ok, panic}
use aptp.Samples.{direct, transcript, queue, queue_server}
use aptp.Wire.{Getter}
use aptp.Rpc.Messages.{AlignmentSpecMessage}
use aptp.Rpc.Server.{Ambient, after_negotiation}
use aptp.Rpc.Server.Negotiates.{Answers, refused, oversized, specified, after_negotiation-Answers}

abbrev now : Ambient
now = record { fresh = "s-1"; clock = some 9 }

abbrev reply : Getter (AlignmentSpecMessage Fixed)
reply =
    (after_negotiation direct transcript queue (ok (32_768, 16_384, "llama", "qwen")) now
      queue_server).0

after_negotiation-Answers_example : Answers direct 32_768 16_384 reply
after_negotiation-Answers_example =
    after_negotiation-Answers direct transcript queue 32_768 16_384 "llama" "qwen" now queue_server
      (omega arith) (omega arith)

large-Answers :
    (r : Getter (AlignmentSpecMessage Fixed)) → Answers direct 32_768 16_384 r → r ≡ panic
large-Answers r (refused (inl zero)) = absurd (omega arith)
large-Answers r (refused (inr zero)) = absurd (omega arith)
large-Answers r (oversized hs ht differ many) = refl
large-Answers r (specified hs ht (inl same) usable) = absurd (omega arith)
large-Answers r (specified hs ht (inr few) usable) = absurd (omega arith)

large_panics : reply ≡ panic
large_panics = large-Answers reply (
    after_negotiation-Answers direct transcript queue 32_768 16_384 "llama" "qwen" now queue_server
      (omega arith) (omega arith))
