-- ===== src/Decoder/Yaz/Stream.antt =====
-- YAZDecoder as its callers use it: DecompLoader.cc feeds a file to `decode` in chunks.
use mkw_sp.Base.{
  ◌≤◌, length-append, ℕ, List, ◌≡◌, ◌++◌, true, false, some, Bool, arith, length, not, ltb,
}
use mkw_sp.Bytes.{read32-append, read32, read32-lt}
use mkw_sp.Decoder.{decode}
use mkw_sp.Decoder.Laws.{Ended, decode_total, decode-append}
use mkw_sp.Decoder.Yaz.{header_size, YazDecoder, construct, yaz, done}
use mkw_sp.Decoder.Yaz.Bounds.{IsValid, yaz_laws}

-- If the heap's array has the length asked for, the constructor makes a decoder that satisfies the
-- invariant, whatever the bytes of the source; it is ok exactly if the source has the 16 bytes of
-- the header.
pub yaz-construct-IsValid :
    (alloc : ℕ → List ℕ) (src : List ℕ)
    → ((n : ℕ) → length (alloc n) ≡ n)
    → IsValid (construct alloc src) × ((construct alloc src).is_ok ≡ not (ltb (length src) 16))
unfolding construct
yaz-construct-IsValid alloc src h = ground (arith, h (read32 src 4), read32-lt src 4)

pub yaz-construct-header :
    (alloc : ℕ → List ℕ) (src : List ℕ)
    → ((n : ℕ) → length (alloc n) ≡ n)
    → (construct alloc src).is_ok ≡ true
    → header_size ≤ length src
yaz-construct-header alloc src h k = ground (arith, (yaz-construct-IsValid alloc src h).1, k)

-- The constructor looks at the header only.
pub yaz-construct-append :
    (alloc : ℕ → List ℕ) (src more : List ℕ)
    → ((n : ℕ) → length (alloc n) ≡ n)
    → (construct alloc src).is_ok ≡ true
    → construct alloc (src ++ more) ≡ construct alloc src
unfolding construct
yaz-construct-append alloc src more h k =
    let l = yaz-construct-header alloc src h k in
    ground (arith, l, length-append src more, read32-append src more 4 (omega (arith, l)))

-- On a decoder that is valid, ok and not done, `decode` reads and writes inside its buffers for any
-- source, and returns: true and still valid, either done or with room left and waiting for a byte;
-- or false, and then it is no longer ok.
pub yaz-decode_total :
    (d : YazDecoder) (src : List ℕ)
    → IsValid d
    → d.is_ok ≡ true
    → done d ≡ false
    → (r : Bool × YazDecoder) × (decode yaz d src ≡ some r) × Ended yaz_laws r
yaz-decode_total d src v o f = decode_total yaz_laws d src v o f

-- Chunks do not matter: if a valid decoder that is ok and not done accepts `a` and is still not
-- done, then to give it `a ++ b` at once is to give the resulting decoder `b`.
pub yaz-decode-append :
    (d t : YazDecoder) (a b : List ℕ)
    → IsValid d
    → d.is_ok ≡ true
    → done d ≡ false
    → decode yaz d a ≡ some (true, t)
    → done t ≡ false
    → decode yaz d (a ++ b) ≡ decode yaz t b
yaz-decode-append d t a b v o f e ft = decode-append yaz_laws d t a b v o f e ft
