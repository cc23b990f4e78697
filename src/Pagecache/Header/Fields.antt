-- ===== src/Pagecache/Header/Fields.antt =====
-- The operations of src/pagecache/header.rs on the five fields of a header.
use Prim.Native.Nat.{bit_and, bit_or}
use sled.Prelude.{
  ℕ, ◌+◌, ◌-◌, ◌*◌, ◌/◌, ◌%◌, ◌^◌, ◌≤◌, ◌<◌, ◌≡◌, ap, ◌∙◌, arith, ◌==◌, ltb, ◌⊎◌, if◌then◌else◌,
}
use sled.Prelude.Outcome.{ok, panic}
use sled.Prelude.Bits.{bit_and_high, bit_or_high, bit_and-one, bit_or-one, bit_and_ones, and_digit}
use sled.Pagecache.Header.{
  max_writers, is_maxed, mk_maxed, is_sealed, mk_sealed, n_writers, incr_writers, decr_writers,
  offset, bump_offset, bump_salt, salt,
}

pub record Fields : Type 0 where
  pub salt : ℕ
  pub maxed : ℕ
  pub sealed : ℕ
  pub writers : ℕ
  pub offset : ℕ

pub record IsFields (f : Fields) : Type 0 where
  pub salt : f.salt < 2 ^ 31
  pub maxed : f.maxed < 2
  pub sealed : f.sealed < 2
  pub writers : f.writers ≤ max_writers
  pub offset : f.offset < 2 ^ 24

-- The header that holds the fields.
abbrev pub pack : Fields → ℕ
pack f = f.salt * 2 ^ 33 + f.maxed * 2 ^ 32 + f.sealed * 2 ^ 31 + f.writers * 2 ^ 24 + f.offset

-- The mask of `bump_salt` on the upper half of a header keeps all bits but the second.
salt_mask : (q : ℕ) → q < 2 ^ 32 → bit_and q 0xFFFF_FFFD ≡ q / 4 * 4 + q % 2
salt_mask q h = omega (
  arith,
  and_digit q 0xFFFF_FFFD,
  and_digit (q / 2) 0x7FFF_FFFE,
  bit_and_ones 30 (q / 2 / 2) (omega arith),
)

module _ (f : Fields) (v : IsFields f) where
  -- A header as its upper part, and the bits below bit 32 or bit 31.
  above_32 :
      pack f ≡ (f.salt * 2 + f.maxed) * 2 ^ 32 + (f.sealed * 2 ^ 31 + f.writers * 2 ^ 24 + f.offset)
  above_32 = omega arith

  above_31 :
      pack f ≡ (f.salt * 4 + f.maxed * 2 + f.sealed) * 2 ^ 31 + (f.writers * 2 ^ 24 + f.offset)
  above_31 = omega arith

  and_maxed : bit_and (pack f) (2 ^ 32) ≡ f.maxed * 2 ^ 32
  and_maxed =
      ap (λ w. bit_and w (2 ^ 32)) above_32
      ∙ bit_and_high 32 (f.salt * 2 + f.maxed) _ 1 (omega arith)
      ∙ omega (arith, bit_and-one (f.salt * 2 + f.maxed))

  and_sealed : bit_and (pack f) (2 ^ 31) ≡ f.sealed * 2 ^ 31
  and_sealed =
      ap (λ w. bit_and w (2 ^ 31)) above_31
      ∙ bit_and_high 31 (f.salt * 4 + f.maxed * 2 + f.sealed) _ 1 (omega arith)
      ∙ omega (arith, bit_and-one (f.salt * 4 + f.maxed * 2 + f.sealed))

  -- The five readings of a packed header give its fields.
  pub fields-pack :
      (offset (pack f) ≡ f.offset)
      × (n_writers (pack f) ≡ f.writers)
      × (is_sealed (pack f) ≡ (f.sealed == 1))
      × (is_maxed (pack f) ≡ (f.maxed == 1))
      × (salt (pack f) ≡ f.salt * 2 ^ 33)
  unfolding offset n_writers is_sealed is_maxed salt
  fields-pack =
      (omega arith, omega arith, ground (arith, and_sealed), ground (arith, and_maxed), omega arith)

  -- Sealing sets the sealed bit, whether or not it is set already, and no other field changes.
  pub mk_sealed-pack : mk_sealed (pack f) ≡ pack (record f { sealed = 1 })
  unfolding mk_sealed
  mk_sealed-pack =
      ap (λ w. bit_or w (2 ^ 31)) above_31
      ∙ bit_or_high 31 (f.salt * 4 + f.maxed * 2 + f.sealed) _ 1 (omega arith)
      ∙ omega (arith, bit_or-one (f.salt * 4 + f.maxed * 2 + f.sealed))

  -- Maxing sets the maxed bit, whether or not it is set already, and no other field changes.
  pub mk_maxed-pack : mk_maxed (pack f) ≡ pack (record f { maxed = 1 })
  unfolding mk_maxed
  mk_maxed-pack =
      ap (λ w. bit_or w (2 ^ 32)) above_32
      ∙ bit_or_high 32 (f.salt * 2 + f.maxed) _ 1 (omega arith)
      ∙ omega (arith, bit_or-one (f.salt * 2 + f.maxed))

  -- One writer more is counted in the writers' field alone, and the 128th one is a panic.
  pub incr_writers-pack : incr_writers (pack f) ≡ (
      if f.writers == max_writers then panic else ok (pack (record f { writers = f.writers + 1 })))
  unfolding incr_writers
  incr_writers-pack = rw fields-pack.1 (ground arith)

  -- One writer less is counted in the writers' field alone, and it is a panic where there is none.
  pub decr_writers-pack :
      decr_writers (pack f)
      ≡ (if f.writers == 0 then panic else ok (pack (record f { writers = f.writers - 1 })))
  unfolding decr_writers
  decr_writers-pack = rw fields-pack.1 (ground arith)

  -- A move by 2 ^ 24 or more is a panic; a move that stays within the field moves the offset alone.
  pub bump_offset-pack :
      (by : ℕ)
      → f.offset + by < 2 ^ 24 ⊎ (2 ^ 24 ≤ by)
      → bump_offset (pack f) by
        ≡ (if ltb by (2 ^ 24) then ok (pack (record f { offset = f.offset + by })) else panic)
  unfolding bump_offset
  bump_offset-pack by h = ground arith

  -- Below the largest salt, `bump_salt` clears the sealed bit, the writers and the offset, keeps the
  -- maxed bit, and clears the lowest bit of the salt that it has counted up.
  pub bump_salt-pack :
      f.salt + 1 < 2 ^ 31
      → bump_salt (pack f)
        ≡ pack (record {
          salt = (f.salt + 1) / 2 * 2;
          maxed = f.maxed;
          sealed = 0;
          writers = 0;
          offset = 0;
        })
  unfolding bump_salt
  bump_salt-pack room =
      ap (λ w. bit_and w 0xFFFF_FFFD_0000_0000) counted
      ∙ bit_and_high 32 ((f.salt + 1) * 2 + f.maxed) low 0xFFFF_FFFD (omega arith)
      ∙ omega (arith, salt_mask ((f.salt + 1) * 2 + f.maxed) (omega arith))
    where
      low : ℕ
      low = f.sealed * 2 ^ 31 + f.writers * 2 ^ 24 + f.offset

      counted : (pack f + 2 ^ 33) % 2 ^ 64 ≡ ((f.salt + 1) * 2 + f.maxed) * 2 ^ 32 + low
      counted = omega arith

abbrev pub only_salt : ℕ → Fields
only_salt s = record { salt = s; maxed = 0; sealed = 0; writers = 0; offset = 0 }

-- `salt` clears all fields but one.
pub salt-pack : (f : Fields) → IsFields f → salt (pack f) ≡ pack (only_salt f.salt)
salt-pack f v = omega (arith, (fields-pack f v).4)

-- What `store_segment_header` makes of the salt of the last header, where that salt is even and not
-- the largest: it is the same salt again.
pub bump_salt-salt :
    (f : Fields)
    → IsFields f
    → f.salt % 2 ≡ 0
    → f.salt + 1 < 2 ^ 31
    → bump_salt (salt (pack f)) ≡ salt (pack f)
bump_salt-salt f v even room =
    ap bump_salt (salt-pack f v)
    ∙ (bump_salt-pack (only_salt f.salt) valid room ∙ omega (arith, salt-pack f v))
  where
    valid : IsFields (only_salt f.salt)
    valid = record {
      salt = v.salt;
      maxed = omega arith;
      sealed = omega arith;
      writers = omega arith;
      offset = omega arith;
    }
