-- ===== src/DecompLoader/Reader.antt =====
-- DecompLoader.cc: the reading thread offers a range of the file, and Load decodes it.
use mkw_sp.Base.{ℕ, ◌≡◌, ◌≤◌, List, Option, some, length}
use mkw_sp.DecompLoader.{Codec, Codecs, MachineCodec, codec_of, choose}
use mkw_sp.DecompLoader.Whole.{DecodesTo}

-- Load returns on the updates, and what it gives is what the decoder makes of all that they carry.
abbrev LoadsAll : Codec → Option (List ℕ) → Option (Option (List ℕ)) → Type 0
LoadsAll c o q =
    (r : Option (List ℕ)) × (q ≡ some r)
    × ((out : List ℕ) → r ≡ some out → (whole : List ℕ) × (o ≡ some whole) × DecodesTo c whole out)

-- A first chunk that is not too short chooses the decoder.
abbrev Chooses : Codecs → MachineCodec → List ℕ → Type 1
Chooses codecs c src = 4 ≤ length src → choose codecs src ≡ codec_of c
