-- ===== src/Runs/Ip.antt =====
-- Texts that are addresses, and texts that are not.
use rfrp.Base.{◌≡◌, refl, true, false}
use rfrp.Base.Bytes.{codes}
use rfrp.Config.Ip.{is_ipv4, is_ipv6, read_octets, read_octet, read_groups, read_group}

loopback_v4 : is_ipv4 (codes "127.0.0.1") ≡ true
unfolding is_ipv4 read_octets read_octet
loopback_v4 = refl

largest_v4 : is_ipv4 (codes "255.255.255.255") ≡ true
unfolding is_ipv4 read_octets read_octet
largest_v4 = refl

octet_too_large : is_ipv4 (codes "10.0.0.256") ≡ false
unfolding is_ipv4 read_octets read_octet
octet_too_large = refl

leading_zero : is_ipv4 (codes "10.0.0.01") ≡ false
unfolding is_ipv4 read_octets read_octet
leading_zero = refl

trailing_byte : is_ipv4 (codes "10.0.0.1 ") ≡ false
unfolding is_ipv4 read_octets read_octet
trailing_byte = refl

loopback_v6 : is_ipv6 (codes "::1") ≡ true
unfolding is_ipv6 read_groups read_octets read_octet read_group
loopback_v6 = refl

mapped_v6 : is_ipv6 (codes "::ffff:192.0.2.128") ≡ true
unfolding is_ipv6 read_groups read_octets read_octet read_group
mapped_v6 = refl

full_v6 : is_ipv6 (codes "2001:db8:0:0:0:0:2:1") ≡ true
unfolding is_ipv6 read_groups read_octets read_octet read_group
full_v6 = refl

two_gaps : is_ipv6 (codes "2001::25de::cade") ≡ false
unfolding is_ipv6 read_groups read_octets read_octet read_group
two_gaps = refl

nine_groups : is_ipv6 (codes "1:2:3:4:5:6:7:8:9") ≡ false
unfolding is_ipv6 read_groups read_octets read_octet read_group
nine_groups = refl

bracketed : is_ipv6 (codes "[::1]") ≡ false
unfolding is_ipv6 read_groups read_octets read_octet read_group
bracketed = refl
