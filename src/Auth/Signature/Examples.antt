-- ===== src/Auth/Signature/Examples.antt =====
-- A header built at one moment and checked at another, with a digest of one digit.
use eventmesh.Base.{ℕ, ◌+◌, ◌%◌, ◌≡◌, refl, true, false, List, [], ◌∷◌, codes, length, arith, ok}
use eventmesh.Base.Int.{pos}
use eventmesh.Auth.Signature.{digits_from, decimal, sign_payload, build_signature_header}
use eventmesh.Auth.Signature.Verify.{int_value, verify_parts, verify_signature_header}
use eventmesh.Auth.Signature.RoundTrip.{Hexadecimal, verify_signature_header-build}

abbrev checksum : List ℕ → List ℕ → List ℕ
checksum key message = (b'0' + length message % 10) ∷ []

checksum-Hexadecimal : Hexadecimal checksum
checksum-Hexadecimal key message = (ground arith, tt)

verify_signature_header-build_example :
    verify_signature_header checksum
      (codes "whsec")
      (codes "{}")
      (build_signature_header checksum (codes "whsec") (codes "{}") (pos 1700000000))
      300
      1700000300000000
    ≡ ok true
unfolding sign_payload decimal digits_from
verify_signature_header-build_example =
    verify_signature_header-build checksum (codes "whsec") (codes "{}") (codes "{}")
      (pos 1700000000) 300 1700000300000000 checksum-Hexadecimal

-- Later than the tolerance, by a microsecond.
stale_header :
    verify_signature_header checksum
      (codes "whsec")
      (codes "{}")
      (build_signature_header checksum (codes "whsec") (codes "{}") (pos 1700000000))
      300
      1700000300000001
    ≡ ok false
unfolding verify_signature_header verify_parts build_signature_header sign_payload decimal
    digits_from int_value
stale_header = refl
