-- ===== src/Tests/Codes.antt =====
-- An example of the codes of failures, with statuses that print as three digits.
use rpceth.Base.{ℕ, ◌+◌, ◌/◌, ◌%◌, ◌≡◌, refl, some, [], ◌∷◌, Text, codes}
use rpceth.Server.Forward.{has_substring, answered, bytes, receive}
use rpceth.Server.Forward.Codes.{Prints, code_of, receive-code}

abbrev three_digits : ℕ → Text
three_digits status =
    (48 + status / 100) ∷ (48 + status / 10 % 10) ∷ (48 + status % 10) ∷ codes " Slow down"

three_digits-Prints : Prints three_digits 429
unfolding has_substring
three_digits-Prints = record {
  rest = codes "29 Slow down";
  digits = refl;
  no_timeout = refl;
  no_status_4 = refl;
  no_status_5 = refl;
}

receive-code_example :
    code_of (receive three_digits (answered 429 [] (bytes []))) ≡ some (codes "client")
receive-code_example = receive-code three_digits (answered 429 [] (bytes [])) three_digits-Prints
