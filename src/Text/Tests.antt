-- ===== src/Text/Tests.antt =====
-- The string functions at inputs that the standard library's documentation settles.
use mystic_hypervisor.Prelude.Int.{pos, negsuc}
use mystic_hypervisor.Prelude.{◌≡◌, refl, some, none, true, false, [], ◌∷◌}
use mystic_hypervisor.Text.{trim_space}
use mystic_hypervisor.Text.Decimal.{itoa, atoi, emit}
use mystic_hypervisor.Text.Parts.{split}
use mystic_hypervisor.Text.Ip.{is_ip}

test_trim : trim_space "  a b\n" ≡ "a b"
unfolding trim_space
test_trim = refl

test_itoa : (itoa (pos 22100) ≡ "22100") × (itoa (negsuc 6) ≡ "-7")
unfolding itoa emit
test_itoa = (refl, refl)

test_atoi : (atoi "+22" ≡ some (pos 22)) × (atoi "-3" ≡ some (negsuc 2)) × (atoi "2a" ≡ none)
unfolding atoi
test_atoi = (refl, refl, refl)

test_split : split b':' "tcp:0.0.0.0:22" ≡ "tcp" ∷ "0.0.0.0" ∷ "22" ∷ []
unfolding split
test_split = refl

test_ip :
    (is_ip "10.170.92.243" ≡ true)
    × (is_ip "256.0.0.1" ≡ false)
    × (is_ip "1.2.3" ≡ false)
    × (is_ip "01.2.3.4" ≡ false)
    × (is_ip "fe80::1" ≡ true)
    × (is_ip "::" ≡ true)
    × (is_ip "::ffff:1.2.3.4" ≡ true)
    × (is_ip "1:2:3:4:5:6:7:8" ≡ true)
    × (is_ip "1:2:3:4:5:6:7:8:9" ≡ false)
    × (is_ip "1::2::3" ≡ false)
    × (is_ip "host" ≡ false)
    × (is_ip "1.2.3.4." ≡ false)
    × (is_ip "12345::" ≡ false)
    × (is_ip "1::" ≡ true)
unfolding is_ip
test_ip = (refl, refl, refl, refl, refl, refl, refl, refl, refl, refl, refl, refl, refl, refl)
