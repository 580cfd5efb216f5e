-- ===== src/Config/Ip.antt =====
-- The parsers behind `Ipv4Addr::from_str` and `Ipv6Addr::from_str` of Rust's standard library
-- (core::net::parser), as far as they tell whether a text is an address. A parser takes the bytes that
-- are left and gives a value with what is then left, or `none`, which leaves the bytes to the next try.
pub mod Dotted
use rfrp.Base.{
  ℕ, zero, suc, ◌+◌, ◌-◌, ◌*◌, Bool, true, false, ◌&&◌, List, [], ◌∷◌, Option, none, some, ltb, leb,
  ◌==◌, if◌then◌else◌, length,
}

-- `read_char()?.to_digit(radix)` for the radixes 10 and 16.
unfoldable pub to_digit : ℕ → ℕ → Option ℕ
to_digit radix b =
    if leb b'0' b && leb b b'9'
    then some (b - b'0')
    else if radix == 16
    then (if leb b'a' b && leb b b'f'
        then some (b - b'a' + 10)
        else if leb b'A' b && leb b b'F'
        then some (b - b'A' + 10)
        else none)
    else none

-- The loop of `read_number`: the value, the number of digits and what is left.
unfoldable pub read_digits_upto : ℕ → ℕ → ℕ → ℕ → List ℕ → Option (ℕ × ℕ × List ℕ)
unfolding to_digit
read_digits_upto radix max_digits result count [] = some (result, count, [])
read_digits_upto radix max_digits result count (b ∷ bs) = elim (to_digit radix b) [
  | none ↦ some (result, count, b ∷ bs)
  | some digit ↦
      let rest = read_digits_upto radix max_digits (result * radix + digit) (count + 1) bs in
      if ltb max_digits (count + 1) then none else rest
]

unfoldable pub has_leading_zero : List ℕ → Bool
has_leading_zero [] = false
has_leading_zero (b ∷ bs) = b == b'0'

-- `read_number(10, Some(3), false)` into a u8.
unfoldable pub read_octet : List ℕ → Option (ℕ × List ℕ)
unfolding read_digits_upto has_leading_zero
read_octet bs = elim (read_digits_upto 10 3 0 0 bs) [
  | none ↦ none
  | some (result, count, rest) ↦
      if count == 0
      then none
      else if has_leading_zero bs && ltb 1 count
      then none
      else if leb result 255
      then some (result, rest)
      else none
]

-- `read_number(16, Some(4), true)` into a u16, which four digits fit.
unfoldable pub read_group : List ℕ → Option (ℕ × List ℕ)
unfolding read_digits_upto
read_group bs = elim (read_digits_upto 16 4 0 0 bs) [
  | none ↦ none
  | some (result, count, rest) ↦ if count == 0 then none else some (result, rest)
]

unfoldable pub read_given_char : ℕ → List ℕ → Option (List ℕ)
read_given_char c [] = none
read_given_char c (b ∷ bs) = if b == c then some bs else none

-- `read_separator`: the separator stands before all but the first.
unfoldable pub read_separator {ℓ} :
    {A : Type ℓ} → ℕ → ℕ → (List ℕ → Option (A × List ℕ)) → List ℕ → Option (A × List ℕ)
unfolding read_given_char
read_separator sep index inner bs =
    if index == 0
    then inner bs
    else elim (read_given_char sep bs) [ none ↦ none | some rest ↦ inner rest ]

-- The octets of `read_ipv4_addr`, from one of them on.
unfoldable pub read_octets : ℕ → ℕ → List ℕ → Option (List ℕ × List ℕ)
unfolding read_separator
read_octets zero i bs = some ([], bs)
read_octets (suc left) i bs = elim (read_separator b'.' i read_octet bs) [
  | none ↦ none
  | some (octet, rest) ↦ elim (read_octets left (i + 1) rest) [
    | none ↦ none
    | some (octets, rest') ↦ some (octet ∷ octets, rest')
  ]
]

abbrev pub read_ipv4_addr : List ℕ → Option (List ℕ × List ℕ)
read_ipv4_addr = read_octets 4 0

abbrev pub is_done {ℓ} : {A : Type ℓ} → Option (A × List ℕ) → Bool
is_done none = false
is_done (some (a, [])) = true
is_done (some (a, b ∷ bs)) = false

-- `Ipv4Addr::from_str(ip).is_ok()`
unfoldable pub is_ipv4 : List ℕ → Bool
is_ipv4 ip = if ltb 15 (length ip) then false else is_done (read_ipv4_addr ip)

-- `read_groups` from group `i` on, with so many left: how many groups have been read, whether the last
-- two were an IPv4 address, and what is left.
unfoldable pub read_groups : ℕ → ℕ → List ℕ → ℕ × Bool × List ℕ
unfolding read_separator
read_groups zero i bs = (i, false, bs)
read_groups (suc left) i bs =
    elim (if ltb 0 left then read_separator b':' i read_ipv4_addr bs else none) [
      | some (address, rest) ↦ (i + 2, true, rest)
      | none ↦ elim (read_separator b':' i read_group bs) [
        | some (group, rest) ↦ read_groups left (i + 1) rest
        | none ↦ (i, false, bs)
      ]
    ]

-- The part of `read_ipv6_addr` behind the head: the `::` and the tail.
unfoldable pub read_tail : ℕ → List ℕ → Option (ℕ × List ℕ)
unfolding read_given_char read_groups
read_tail head_size bs = elim (read_given_char b':' bs) [
  | none ↦ none
  | some rest ↦ elim (read_given_char b':' rest) [
    | none ↦ none
    | some rest' ↦
        let (tail_size, tail_ipv4, left) = read_groups (8 - (head_size + 1)) 0 rest' in
        some (tail_size, left)
  ]
]

-- The size of the tail stands for the address.
unfoldable pub read_ipv6_addr : List ℕ → Option (ℕ × List ℕ)
unfolding read_groups read_tail
read_ipv6_addr bs =
    let (head_size, head_ipv4, rest) = read_groups 8 0 bs in
    if head_size == 8 then some (0, rest) else if head_ipv4 then none else read_tail head_size rest

-- `Ipv6Addr::from_str(ip).is_ok()`
unfoldable pub is_ipv6 : List ℕ → Bool
unfolding read_ipv6_addr
is_ipv6 ip = is_done (read_ipv6_addr ip)
