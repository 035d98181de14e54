-- ===== src/Sync/LfQueue/Threads.antt =====
-- One access of one thread keeps the invariant.
use tcengine.Base.{ℕ, suc, ◌+◌, ◌^◌, ◌<◌, ◌≡◌, ◌≢◌, arith}
use tcengine.Base.{Bool, true, bit_and, update}
use tcengine.Sync.LfQueue.{PutPc, GetPc, put_step, get_step}
use tcengine.Sync.LfQueue.System.{System, Pc, put, get, at_rest, after_put, after_get}
use tcengine.Sync.LfQueue.Invariant.{IsSize, Inv, Own, index-ne, index-ne_round}

-- The position that a put or a get is busy with.
abbrev place : PutPc → ℕ
place (PutPc.looking pos) = pos
place (PutPc.claiming pos) = pos
place (PutPc.claimed pos) = pos
place (PutPc.stored pos) = pos
place (PutPc.returned _) = 0

abbrev source : GetPc → ℕ
source (GetPc.looking pos) = pos
source (GetPc.claiming pos) = pos
source (GetPc.claimed pos) = pos
source (GetPc.loaded pos _) = pos
source (GetPc.returned _) = 0

abbrev spot : Pc → ℕ
spot Pc.idle = 0
spot (put _ p) = place p
spot (get p) = source p

module _ {n limit : ℕ} {s : System} (size : IsSize n) (inv : Inv n limit s) (small : limit < 2 ^ 62)
    (i : ℕ) where
  open inv use {mask, write_in, word, order, room, own, writer, reader, full, vacant}

  index : (a b : ℕ) → bit_and a s.queue.mask ≡ bit_and b s.queue.mask → a + 1 ≢ b
  index = index-ne size mask

  round : (a b : ℕ) → bit_and a s.queue.mask ≡ bit_and b s.queue.mask → a + 1 ≢ b + n
  round = index-ne_round size mask

  pub put-Inv :
      (d : ℕ) (spurious : Bool) (p : PutPc)
      → s.pc i ≡ put d p
      → Own s.queue s.log (put d p)
      → Inv n (suc limit) (after_put s i d p (put_step spurious d s.queue p))
  unfolding put_step
  put-Inv d spurious (PutPc.looking pos) e here = record {
    mask = ground arith;
    write_in = ground arith;
    word = λ p. ground (arith, word p);
    order = ground arith;
    room = ground arith;
    own = λ j. ground (arith, own j, word pos);
    writer = λ a b p x y. ground (arith, writer a b p);
    reader = λ a b p x y. ground (arith, reader a b p);
    full = λ p h. ground (arith, full p);
    vacant = λ p h. ground (arith, vacant p);
  }
  put-Inv d spurious x e here = record {
    mask = ground arith;
    write_in = ground arith;
    word = λ p. ground (arith, word p);
    order = ground arith;
    room = ground (arith, vacant (place x));
    own = λ j. ground (arith, own j, writer i j (place x), index (spot (s.pc j)) (place x));
    writer = λ a b p u v. ground (arith, writer a b p, own a, own b);
    reader = λ a b p u v. ground (arith, reader a b p);
    full = λ p h. ground (arith, full p, index p (place x));
    vacant = λ p h. ground (arith, vacant p, index (place x) p);
  }

  pub get-Inv :
      (spurious : Bool) (p : GetPc)
      → s.pc i ≡ get p
      → Own s.queue s.log (get p)
      → Inv n (suc limit) (after_get s i (get_step spurious s.queue p))
  unfolding get_step
  get-Inv spurious (GetPc.looking pos) e here = record {
    mask = ground arith;
    write_in = ground arith;
    word = λ p. ground (arith, word p);
    order = ground arith;
    room = ground arith;
    own = λ j. ground (arith, own j, word pos);
    writer = λ a b p x y. ground (arith, writer a b p);
    reader = λ a b p x y. ground (arith, reader a b p);
    full = λ p h. ground (arith, full p);
    vacant = λ p h. ground (arith, vacant p);
  }
  get-Inv spurious x e here = record {
    mask = ground arith;
    write_in = ground arith;
    word = λ p. ground (arith, word p, size.at_least_two);
    order = ground (arith, full (source x));
    room = ground arith;
    own = λ j. ground (
      arith,
      own j,
      reader i j (source x),
      full (source x),
      index (source x) (spot (s.pc j)),
      round (spot (s.pc j)) (source x),
      size.at_least_two,
    );
    writer = λ a b p u v. ground (arith, writer a b p);
    reader = λ a b p u v. ground (arith, reader a b p, own a, own b);
    full = λ p h. ground (arith, full p, round p (source x), size.at_least_two);
    vacant = λ p h. ground (arith, vacant p, size.at_least_two);
  }

  pub call_put-Inv :
      (d : ℕ)
      → at_rest (s.pc i) ≡ true
      → Inv n (suc limit) (record s { pc = update s.pc i (put d (PutPc.looking s.queue.write)) })
  call_put-Inv d rest = record {
    mask = mask;
    write_in = omega arith;
    word = λ p. omega (arith, word p);
    order = order;
    room = room;
    own = λ j. ground (arith, own j);
    writer = λ a b p x y. ground (arith, writer a b p);
    reader = λ a b p x y. ground (arith, reader a b p);
    full = full;
    vacant = vacant;
  }

  pub call_get-Inv :
      at_rest (s.pc i) ≡ true
      → Inv n (suc limit) (record s { pc = update s.pc i (get (GetPc.looking s.queue.read)) })
  call_get-Inv rest = record {
    mask = mask;
    write_in = omega arith;
    word = λ p. omega (arith, word p);
    order = order;
    room = room;
    own = λ j. ground (arith, own j);
    writer = λ a b p x y. ground (arith, writer a b p);
    reader = λ a b p x y. ground (arith, reader a b p);
    full = full;
    vacant = vacant;
  }
