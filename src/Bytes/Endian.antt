-- ===== src/Bytes/Endian.antt =====
-- Big-endian numbers read back.
use Prim.Native.Nat.pow
use docker_control.Prelude.{
  ℕ, zero, suc, ◌+◌, ◌*◌, ◌/◌, ◌%◌, ◌^◌, ◌<◌, ◌≡◌, refl, List, [], ◌∷◌, ◌++◌, arith, length,
  length-append,
}
use docker_control.Bytes.{put_be, get_be}

pub length-put_be : (width n : ℕ) → length (put_be width n) ≡ width
unfolding put_be
length-put_be zero n = refl
length-put_be (suc width) n =
    omega
      (arith, length-append (put_be width (n / 256)) (n % 256 ∷ []), length-put_be width (n / 256))

get_be-append : (acc : ℕ) (s : List ℕ) (b : ℕ) → get_be acc (s ++ b ∷ []) ≡ get_be acc s * 256 + b
unfolding get_be
get_be-append acc [] b = refl
get_be-append acc (c ∷ s) b = get_be-append (acc * 256 + c) s b

-- What was put into `width` bytes is read back, if it fits.
pub get_be-put_be : (width n : ℕ) → n < 256 ^ width → get_be 0 (put_be width n) ≡ n
unfolding put_be
get_be-put_be zero n h = unfold get_be in omega arith
get_be-put_be (suc width) n h =
    let p : 256 ^ suc width ≡ 256 ^ width * 256 = pow.suc 256 width in
    rw
      (
        get_be-append 0 (put_be width (n / 256)) (n % 256),
        get_be-put_be width (n / 256) (omega (arith, p)),
      )
      (omega arith)
