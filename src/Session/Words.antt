-- ===== src/Session/Words.antt =====
-- The object representation that `std::memcpy` copies: an unsigned number of `width` bytes, low
-- byte first.
use gtlibcpp.Common.{
  ℕ, zero, suc, ◌+◌, ◌*◌, ◌/◌, ◌%◌, ◌^◌, ◌<◌, ◌≡◌, refl, ap, [], ◌∷◌, arith, Bytes, length,
}
use native.Mathlib.Nat.{pow-suc}

unfoldable pub encode : ℕ → ℕ → Bytes
encode zero value = []
encode (suc width) value = (value % 256) ∷ encode width (value / 256)

unfoldable pub decode : Bytes → ℕ
decode [] = 0
decode (b ∷ bs) = b + 256 * decode bs

pub length-encode : (width value : ℕ) → length (encode width value) ≡ width
unfolding encode
length-encode zero value = refl
length-encode (suc width) value = ap suc (length-encode width (value / 256))

-- Copying a value of the type out and back gives the value.
pub decode-encode : (width value : ℕ) → value < 256 ^ width → decode (encode width value) ≡ value
unfolding encode decode
decode-encode zero value h = omega arith
decode-encode (suc width) value h =
    omega (arith, decode-encode width (value / 256) (omega (arith, pow-suc 256 width)))
