-- ===== src/Iattr/Time.antt =====
-- kernel/iattr.c: times as 32.32 fixed point.
use tux3_fuse.Prelude.{◌∙◌, ℕ, ◌+◌, ◌*◌, ◌/◌, ◌%◌, ◌^◌, ◌<◌, ◌≡◌, ap₂, arith}
use tux3_fuse.Iattr.{Timespec, high32, billionths, spectime, tuxtime}

abbrev fraction : ℕ → ℕ
fraction nsec = (nsec * 9223372036 + 1610612736) / 2147483648

fraction-lt : (n : ℕ) → n < 1000000000 → fraction n < 4294967296
fraction-lt n h = omega arith

fraction_back : (n : ℕ) → n < 1000000000 → (fraction n * 1000000000 + 2147483648) / 4294967296 ≡ n
fraction_back n h = omega arith

pub tuxtime-fields :
    (ts : Timespec)
    → ts.tv_sec < 2 ^ 32
    → ts.tv_nsec < 1000000000
    → tuxtime ts ≡ ts.tv_sec * 2 ^ 32 + fraction ts.tv_nsec
unfolding tuxtime
tuxtime-fields ts s n = omega (arith, fraction-lt ts.tv_nsec n)

pub tuxtime-lt :
    (ts : Timespec) → ts.tv_sec < 2 ^ 32 → ts.tv_nsec < 1000000000 → tuxtime ts < 2 ^ 64
tuxtime-lt ts s n = omega (arith, tuxtime-fields ts s n, fraction-lt ts.tv_nsec n)

fixed-seconds : (s f : ℕ) → f < 2 ^ 32 → s < 2 ^ 32 → high32 (s * 2 ^ 32 + f) ≡ s
fixed-seconds s f h k = omega arith

fixed-billionths :
    (s f : ℕ)
    → f < 2 ^ 32
    → billionths (s * 2 ^ 32 + f) ≡ (f * 1000000000 + 2147483648) / 4294967296
unfolding billionths
fixed-billionths s f h =
    let low : (s * 2 ^ 32 + f) % 2 ^ 32 ≡ f = omega arith in rw low (omega arith)

-- A time of fewer than 2^32 seconds comes back from its fixed-point form to the nanosecond.
pub spectime-tuxtime :
    (ts : Timespec) → ts.tv_sec < 2 ^ 32 → ts.tv_nsec < 1000000000 → spectime (tuxtime ts) ≡ ts
unfolding spectime
spectime-tuxtime ts s n =
    let small = fraction-lt ts.tv_nsec n in
    rw (tuxtime-fields ts s n) (
      ap₂ {C = Timespec} (λ (a b : ℕ). record { tv_sec = a; tv_nsec = b })
        (fixed-seconds ts.tv_sec (fraction ts.tv_nsec) small s)
        (fixed-billionths ts.tv_sec (fraction ts.tv_nsec) small ∙ fraction_back ts.tv_nsec n))
