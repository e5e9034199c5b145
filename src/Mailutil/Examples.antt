-- ===== src/Mailutil/Examples.antt =====
-- A name of EHLO that tries to break the trace header, and a hop count.
use xeron_mx.Prelude.{◌≤◌, ◌<◌, ◌≡◌, refl, false, none, [], ◌∷◌, ◌++◌, length, All}
use xeron_mx.Text.{Bytes, codes}
use xeron_mx.Mailutil.{Trace, trace_header, header_lines, trace_token, count_received}
use xeron_mx.Mailutil.Folding.{IsFolded, trace_header_lem}
use xeron_mx.Mailutil.Tokens.{trace_token_lem}

abbrev hostile : Bytes
hostile = codes "a" ++ 13 ∷ 10 ∷ codes "X: b"

trace_token_test : trace_token hostile ≡ codes "aX:b"
unfolding trace_token
trace_token_test = refl

count_received_test :
    count_received
      (codes "Received: x" ++ 10 ∷ codes "RECEIVED: y" ++ 10 ∷ 10 ∷ codes "received: z")
    ≡ 2
unfolding count_received
count_received_test = refl

trace_token_lem_test :
    All (λ c. (32 < c) × (c < 127)) (trace_token hostile) × (length (trace_token hostile) ≤ 255)
trace_token_lem_test = trace_token_lem hostile

abbrev trace : Trace
trace = record {
  helo = hostile;
  remote = codes "192.0.2.1";
  by = codes "mx";
  protocol = codes "ESMTP";
  id = codes "1";
  recipient = codes "a@b";
}

trace_header_test :
    header_lines (trace_header (λ s. none) (λ s. false) (codes "now") trace)
    ≡ codes "Received: from aX:b ([192.0.2.1])"
      ∷ (9 ∷ codes "by mx (XeronMX) with ESMTP id 1")
      ∷ (9 ∷ codes "for <a@b>; now")
      ∷ []
      ∷ []
unfolding trace_header header_lines
trace_header_test = refl

trace_header_lem_example :
    IsFolded (header_lines (trace_header (λ s. none) (λ s. false) (codes "now") trace))
unfolding xeron_mx.Prelude.any
trace_header_lem_example =
    trace_header_lem (λ s. none) (λ s. false) (codes "now") trace refl refl refl refl
