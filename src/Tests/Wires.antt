-- ===== src/Tests/Wires.antt =====
-- A concrete `Wire`: UUIDs printed in unary, and the JSON texts of three messages.
use mathlib.Core.Option
use remotekvm.Base.{ℕ, zero, suc, ◌≡◌, refl, String, Option, none, some, str_eq, if◌then◌else◌}
use remotekvm.Server.Messages.{SignalingMessage, connect_request, signaling_answer, ice_candidate}
use remotekvm.Server.Relay.{Wire}

unfoldable pub print : ℕ → String
print zero = ""
print (suc n) = String.◌∷◌ "u" (print n)

unfoldable pub parse : String → Option ℕ
parse String.[] = some 0
parse (String.◌∷◌ c s) = Option.map suc (parse s)

pub parse-print : (n : ℕ) → parse (print n) ≡ some n
unfolding parse print
parse-print zero = refl
parse-print (suc n) = rw (parse-print n)

abbrev pub decode : String → Option SignalingMessage
decode text =
    if str_eq text "offer"
    then some (connect_request "u" "someone" "sdp-offer")
    else if str_eq text "answer"
    then some (signaling_answer "u" "sdp-answer")
    else if str_eq text "ice"
    then some (ice_candidate "u" "candidate")
    else none

abbrev pub wire : Wire
wire = record {
  from_str = decode;
  parse_str = parse;
  to_string = print;
  parse_str-to_string = parse-print;
}
