-- ===== src/Net/SyncSocket/Chunks.antt =====
-- SyncSocket::read: the message that it returns does not depend on how SORecv splits it.
use mkw_sp.Base.{
  ℕ, zero, suc, ◌+◌, ◌≤◌, ◌<◌, ◌^◌, ◌≡◌, ◌∙◌, List, [], ◌∷◌, ◌++◌, Option, some, true, Bool, arith,
  length, take, drop, refl, sym, ap, subst, set, length-append, lt→ltb, length-take,
  drop-append_left, length-drop,
}
use mkw_sp.Base.Words.{u16, sub32}
use mkw_sp.Net.{Platform, RecvResult}
use mkw_sp.Net.Task.{blit}
use mkw_sp.Net.SyncSocket.{recv_loop}

-- From w to u the network gives these bytes: asked for some of them, SORecv returns any number of
-- them from the front, at least one and at most as many as it is asked for.
pub data Gives (p : Platform) (u : p.World) : p.World → List ℕ → Type 0 where
  done : Gives p u u []
  more :
      {w : p.World} (b : ℕ) (bytes : List ℕ) (count : ℕ → ℕ) (next : ℕ → p.World)
      → ((n : ℕ)
          → 1 ≤ n
          → n ≤ suc (length bytes)
          → (1 ≤ count n)
            × (count n ≤ n)
            × (p.recv n w ≡ (RecvResult.received (take (count n) (b ∷ bytes)), next n)))
      → ((n : ℕ) → 1 ≤ n → n ≤ suc (length bytes) → Gives p u (next n) (drop (count n) (b ∷ bytes)))
      → Gives p u w (b ∷ bytes)

blit-append :
    (buffer : List ℕ) (i : ℕ) (xs ys : List ℕ)
    → blit buffer i (xs ++ ys) ≡ blit (blit buffer i xs) (i + length xs) ys
blit-append buffer i [] ys = ap (λ n. blit buffer n ys) (omega arith)
blit-append buffer i (x ∷ xs) ys =
    blit-append (set buffer i x) (i + 1) xs ys
    ∙ ap (λ n. blit (blit (set buffer i x) (i + 1) xs) n ys) (omega arith)

take-append-drop : (n : ℕ) (xs : List ℕ) → take n xs ++ drop n xs ≡ xs
take-append-drop zero xs = refl
take-append-drop (suc n) [] = refl
take-append-drop (suc n) (x ∷ xs) = ap (◌∷◌ x) (take-append-drop n xs)

take-append_left : (n : ℕ) (xs ys : List ℕ) → n ≤ length xs → take n (xs ++ ys) ≡ take n xs
take-append_left zero xs ys h = refl
take-append_left (suc n) [] ys h = absurd (omega arith)
take-append_left (suc n) (x ∷ xs) ys h = ap (◌∷◌ x) (take-append_left n xs ys (omega arith))

recv_loop_step :
    (p : Platform) (fuel end offset : ℕ) (buffer bytes : List ℕ) (w v : p.World)
    → offset < end
    → offset + length bytes ≤ end
    → end < 2 ^ 16
    → p.recv (sub32 end offset) w ≡ (RecvResult.received bytes, v)
    → recv_loop p (suc fuel) end offset buffer w
      ≡ recv_loop p fuel end (offset + length bytes) (blit buffer offset bytes) v
unfolding recv_loop
recv_loop_step p fuel end offset buffer bytes w v h fits small q =
    let no_wrap : u16 (offset + length bytes) ≡ offset + length bytes = omega arith in
    rw (lt→ltb offset end h, ap (λ r. r.0) q, ap (λ r. r.1) q, no_wrap)

-- A loop that starts with `xs` to receive stores them and leaves the rest to be received.
pub record Filled (p : Platform) (u : p.World) (ys buffer : List ℕ)
    (r : Option (Bool × List ℕ × p.World)) : Type 0 where
  pub world : p.World
  pub result : r ≡ some (true, buffer, world)
  pub rest : Gives p u world ys

module _ {p : Platform} where
  pub recv_loop-Gives :
      (fuel end offset : ℕ) (buffer xs ys : List ℕ) (w u : p.World)
      → Gives p u w (xs ++ ys)
      → offset + length xs ≡ end
      → end < 2 ^ 16
      → length xs ≤ fuel
      → Filled p u ys (blit buffer offset xs) (recv_loop p fuel end offset buffer w)
  unfolding recv_loop
  recv_loop-Gives zero end offset buffer [] ys w u g e small h = record {
    world = w;
    result = ground arith;
    rest = g;
  }
  recv_loop-Gives (suc fuel) end offset buffer [] ys w u g e small h = record {
    world = w;
    result = ground arith;
    rest = g;
  }
  recv_loop-Gives zero end offset buffer (x ∷ xs) ys w u g e small h = absurd (omega arith)
  recv_loop-Gives (suc fuel) end offset buffer (x ∷ xs) ys w u
        (Gives.more b bytes count next gives then) e small h =
      let n = suc (length xs) in
      let fits : n ≤ suc (length (xs ++ ys)) = omega (arith, length-append xs ys) in
      let (some_bytes, few, q) = gives n (omega arith) fits in
      let all = x ∷ xs in
      let c = count n in
      let size : length (take c all) ≡ c = omega (arith, length-take c all) in
      let rest =
        recv_loop-Gives fuel end (offset + c) (blit buffer offset (take c all)) (drop c all) ys
          (next n) u
          (subst (Gives p u (next n)) (drop-append_left c all ys few) (then n (omega arith) fits))
          (omega (arith, length-drop c all)) small (omega (arith, length-drop c all)) in
      record {
        world = rest.world;
        result =
            recv_loop_step p fuel end offset buffer (take c all) w (next n) (omega arith)
              (omega arith) small
              (ap (λ k. p.recv k w) {y = n} (omega arith)
                ∙ q
                ∙ ap (λ l. (RecvResult.received l, next n)) (take-append_left c all ys few))
            ∙ ap (λ k. recv_loop p fuel end k (blit buffer offset (take c all)) (next n))
                (omega arith)
            ∙ rest.result
            ∙ ap (λ b. some (true, b, rest.world))
                (ap (λ k. blit (blit buffer offset (take c all)) k (drop c all)) (omega arith)
                  ∙ sym (blit-append buffer offset (take c all) (drop c all))
                  ∙ ap (blit buffer offset) (take-append-drop c all));
        rest = rest.rest;
      }

  -- What is left behind the bytes that are given is the end.
  pub Gives-end : {w u : p.World} → Gives p u w [] → w ≡ u
  Gives-end Gives.done = refl
