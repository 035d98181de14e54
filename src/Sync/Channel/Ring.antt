-- ===== src/Sync/Channel/Ring.antt =====
-- The ring of a channel: what it holds, the oldest first.
use native.Mathlib.Nat.{mod-eq_of_lt, mod_self}
use mathlib.Core.Path.{ap₂}
use tcengine.Base.{ℕ, zero, suc, ◌+◌, ◌-◌, ◌%◌, ◌^◌, ◌<◌, ◌≡◌, refl, sym, ◌∙◌, ap, arith}
use tcengine.Base.{Bool, true, false, List, [], ◌∷◌, ◌++◌, ◌==◌, if◌then◌else◌, leb, update}
use tcengine.Base.{length, Bool-cases, inl, inr}
use tcengine.Sync.Channel.{Channel, following, channel_full, channel_empty}

pub record IsValid (c : Channel) : Type 0 where
  pub cap_small : c.cap < 2 ^ 32
  pub head_lt : c.head < c.cap
  pub tail_lt : c.tail < c.cap

-- How far `j` stands behind `i` in the ring.
abbrev pub distance : (cap i j : ℕ) → ℕ
distance cap i j = if leb i j then j - i else j + cap - i

abbrev pub count : Channel → ℕ
count c = distance c.cap c.tail c.head

-- The `n` items from slot `i` on.
pub items : (ℕ → ℕ) → (cap i n : ℕ) → List ℕ
items slots cap i zero = []
items slots cap i (suc n) = slots i ∷ items slots cap (following cap i) n

pub contents : Channel → List ℕ
contents c = items c.slots c.cap c.tail (count c)

pub following-eq :
    (cap i : ℕ) → cap < 2 ^ 32 → i < cap → following cap i ≡ (if i + 1 == cap then 0 else i + 1)
unfolding following
following-eq cap i small lt = elim (Bool-cases (i + 1 == cap)) [
  | inl e ↦
      let last : i + 1 ≡ cap = ground arith in
      let wrap : (i + 1) % 2 ^ 32 ≡ cap = omega arith in rw (wrap, e) (mod_self cap)
  | inr e ↦
      let wrap : (i + 1) % 2 ^ 32 ≡ i + 1 = omega arith in
      rw (wrap, e) (mod-eq_of_lt {n = i + 1} {m = cap} (ground arith))
]

pub following-lt : (cap i : ℕ) → cap < 2 ^ 32 → i < cap → following cap i < cap
following-lt cap i small lt = ground (arith, following-eq cap i small lt)

length-items : (slots : ℕ → ℕ) (cap i n : ℕ) → length (items slots cap i n) ≡ n
unfolding items
length-items slots cap i zero = refl
length-items slots cap i (suc n) = ap suc (length-items slots cap (following cap i) n)

pub length-contents : (c : Channel) → length (contents c) ≡ count c
unfolding contents
length-contents c = length-items c.slots c.cap c.tail (count c)

distance_next :
    (cap i h n : ℕ)
    → cap < 2 ^ 32
    → i < cap
    → h < cap
    → distance cap i h ≡ suc n
    → distance cap (following cap i) h ≡ n
distance_next cap i h n small i_lt h_lt d = ground (arith, following-eq cap i small i_lt)

-- A write behind the items does not change them, and the next item is the one written.
items-update :
    (slots : ℕ → ℕ) (cap i n h v : ℕ)
    → cap < 2 ^ 32
    → i < cap
    → h < cap
    → distance cap i h ≡ n
    → items (update slots h v) cap i (suc n) ≡ items slots cap i n ++ (v ∷ [])
unfolding items
items-update slots cap i zero h v small i_lt h_lt d =
    let here : h ≡ i = ground arith in ap (λ t. t ∷ []) (ground arith)
items-update slots cap i (suc n) h v small i_lt h_lt d =
    let elsewhere : update slots h v i ≡ slots i = ground arith in
    ap₂ ◌∷◌ elsewhere (
      items-update slots cap (following cap i) n h v small (following-lt cap i small i_lt) h_lt
        (distance_next cap i h n small i_lt h_lt d))

module _ (c : Channel) (valid : IsValid c) where
  count-lt : count c < c.cap
  count-lt = ground (arith, valid.head_lt, valid.tail_lt)

  -- A channel has one slot that it never fills.
  pub channel_full-eq : channel_full c ≡ (count c + 1 == c.cap)
  unfolding channel_full
  channel_full-eq =
      ground (
        arith,
        following-eq c.cap c.head valid.cap_small valid.head_lt,
        valid.head_lt,
        valid.tail_lt,
      )

  pub channel_empty-eq : channel_empty c ≡ (count c == 0)
  unfolding channel_empty
  channel_empty-eq = ground (arith, valid.head_lt, valid.tail_lt)

  pub count-fill :
      channel_full c ≡ false → distance c.cap c.tail (following c.cap c.head) ≡ suc (count c)
  unfolding channel_full
  count-fill h =
      ground (
        arith,
        following-eq c.cap c.head valid.cap_small valid.head_lt,
        valid.head_lt,
        valid.tail_lt,
      )

  pub count-take :
      channel_empty c ≡ false → suc (distance c.cap (following c.cap c.tail) c.head) ≡ count c
  unfolding channel_empty
  count-take h =
      ground (
        arith,
        following-eq c.cap c.tail valid.cap_small valid.tail_lt,
        valid.head_lt,
        valid.tail_lt,
      )

  pub contents-fill :
      (v : ℕ) (waiting : List ℕ)
      → channel_full c ≡ false
      → contents (record c {
        slots = update c.slots c.head v;
        head = following c.cap c.head;
        consumers = waiting;
      })
        ≡ contents c ++ (v ∷ [])
  unfolding contents
  contents-fill v waiting h =
      ap (items (update c.slots c.head v) c.cap c.tail) (count-fill h)
      ∙ items-update c.slots c.cap c.tail (count c) c.head v valid.cap_small valid.tail_lt
          valid.head_lt refl

  pub contents-take :
      (waiting : List ℕ)
      → channel_empty c ≡ false
      → contents c
        ≡ c.slots c.tail
          ∷ contents (record c { tail = following c.cap c.tail; producers = waiting })
  unfolding contents items
  contents-take waiting h = ap (items c.slots c.cap c.tail) (sym (count-take h))

  pub contents-empty : channel_empty c ≡ true → contents c ≡ []
  unfolding contents items
  contents-empty h =
      let none_left : count c ≡ 0 = ground (arith, channel_empty-eq) in
      ap (items c.slots c.cap c.tail) none_left

-- The fibers that wait, and whether the channel is closed, do not matter.
pub contents-same :
    (c : Channel) (producers consumers : List ℕ) (closed : Bool)
    → contents (record c { producers = producers; consumers = consumers; closed = closed })
      ≡ contents c
unfolding contents
contents-same c producers consumers closed = refl

pub same-IsValid :
    (c : Channel) (producers consumers : List ℕ) (closed : Bool)
    → IsValid c
    → IsValid (record c { producers = producers; consumers = consumers; closed = closed })
same-IsValid c producers consumers closed valid = record {
  cap_small = valid.cap_small;
  head_lt = valid.head_lt;
  tail_lt = valid.tail_lt;
}
