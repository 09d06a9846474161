-- ===== src/Input/Modifiers/Held.antt =====
-- What `held_modifiers` makes of a flags word.
use drift.Base.{
  ℕ, ◌≡◌, refl, ap, ◌∙◌, Bool, true, false, ◌&&◌, ◌||◌, Option, none, some, arith, ◌==◌, inl, inr,
  Bool-cases,
}
use drift.Input.Modifiers.{
  ModifierFlags, ModifierKey, ModifierSet, Class, contains, insert_if, same_key, index, has_flags,
  of_class, hold_synthetic, hold_class,
}
use drift.Input.Modifiers.Sets.{IsSet8, contains-insert, insert-IsSet8}

insert_if-IsSet8 :
    (b : Bool) (key : ModifierKey) (s : ModifierSet) → IsSet8 s → IsSet8 (insert_if b key s)
insert_if-IsSet8 true key s h = insert-IsSet8 s key key h
insert_if-IsSet8 false key s h = h

contains-insert_if :
    (b : Bool) (key j : ModifierKey) (s : ModifierSet)
    → IsSet8 s
    → contains (insert_if b key s) j ≡ ((b && same_key j key) || contains s j)
contains-insert_if true key j s h = contains-insert s key j h
contains-insert_if false key j s h = refl

-- Two keys, the right one after the left one.
contains-insert_both :
    (a b : Bool) (l r j : ModifierKey) (s : ModifierSet)
    → IsSet8 s
    → contains (insert_if b r (insert_if a l s)) j
      ≡ ((b && same_key j r) || ((a && same_key j l) || contains s j))
contains-insert_both a b l r j s h = ground (
  arith,
  contains-insert_if b r j (insert_if a l s) (insert_if-IsSet8 a l s h),
  contains-insert_if a l j s h,
)

insert_both-IsSet8 :
    (a b : Bool) (l r : ModifierKey) (s : ModifierSet)
    → IsSet8 s
    → IsSet8 (insert_if b r (insert_if a l s))
insert_both-IsSet8 a b l r s h = insert_if-IsSet8 b r (insert_if a l s) (insert_if-IsSet8 a l s h)

hold_synthetic-IsSet8 :
    (c : Class) (o : Option ModifierKey) (p s : ModifierSet)
    → IsSet8 s
    → IsSet8 (hold_synthetic c o p s)
unfolding hold_synthetic
hold_synthetic-IsSet8 c (some k) p s h = insert-IsSet8 s k k h
hold_synthetic-IsSet8 c none p s h = ground (
  arith,
  insert_both-IsSet8 (contains p c.left) (contains p c.right) c.left c.right s h,
  insert-IsSet8 s c.left c.left h,
)

hold_class-IsSet8 :
    (f : ModifierFlags) (o : Option ModifierKey) (p : ModifierSet) (c : Class) (s : ModifierSet)
    → IsSet8 s
    → IsSet8 (hold_class f o p c s)
unfolding hold_class
hold_class-IsSet8 f o p c s h = ground (
  arith,
  insert_both-IsSet8 (has_flags f c.left_bit) (has_flags f c.right_bit) c.left c.right s h,
  hold_synthetic-IsSet8 c (of_class o c) p s h,
)

-- The branches with no device bits leave the keys of other classes alone, and hold a key.
hold_previous_frame :
    (c : Class) (p s : ModifierSet) (j : ModifierKey)
    → IsSet8 s
    → same_key j c.left ≡ false
    → same_key j c.right ≡ false
    → contains (hold_synthetic c none p s) j ≡ contains s j
unfolding hold_synthetic
hold_previous_frame c p s j h l r = ground (
  arith,
  contains-insert_both (contains p c.left) (contains p c.right) c.left c.right j s h,
  contains-insert s c.left j h,
)

other_key :
    (i j l r : ℕ)
    → (i == l) ≡ false
    → (i == r) ≡ false
    → (j == l || j == r) ≡ true
    → (i == j) ≡ false
other_key i j l r p q e = ground arith

hold_changed_frame :
    (c : Class) (k : ModifierKey) (p s : ModifierSet) (j : ModifierKey)
    → IsSet8 s
    → same_key j k ≡ false
    → contains (hold_synthetic c (some k) p s) j ≡ contains s j
unfolding hold_synthetic
hold_changed_frame c k p s j h e = contains-insert s k j h ∙ ap (λ b. b || contains s j) e

hold_synthetic_frame :
    (c : Class) (o : Option ModifierKey) (p s : ModifierSet) (j : ModifierKey)
    → IsSet8 s
    → same_key j c.left ≡ false
    → same_key j c.right ≡ false
    → contains (hold_synthetic c (of_class o c) p s) j ≡ contains s j
hold_synthetic_frame c none p s j h l r = hold_previous_frame c p s j h l r
hold_synthetic_frame c (some k) p s j h l r =
    elim (Bool-cases (same_key k c.left || same_key k c.right)) [
      | inl e ↦ rw e (
          hold_changed_frame c k p s j h
            (other_key (index j) (index k) (index c.left) (index c.right) l r e))
      | inr e ↦ rw e (hold_previous_frame c p s j h l r)
    ]

hold_synthetic_holds :
    (c : Class) (o : Option ModifierKey) (p s : ModifierSet)
    → IsSet8 s
    → let q = hold_synthetic c (of_class o c) p s in
      (contains q c.left || contains q c.right) ≡ true
unfolding hold_synthetic
hold_synthetic_holds c none p s h = ground (
  arith,
  contains-insert_both (contains p c.left) (contains p c.right) c.left c.right c.left s h,
  contains-insert_both (contains p c.left) (contains p c.right) c.left c.right c.right s h,
  contains-insert s c.left c.left h,
)
hold_synthetic_holds c (some k) p s h = ground (
  arith,
  contains-insert_both (contains p c.left) (contains p c.right) c.left c.right c.left s h,
  contains-insert_both (contains p c.left) (contains p c.right) c.left c.right c.right s h,
  contains-insert s c.left c.left h,
  contains-insert s k c.left h,
  contains-insert s k c.right h,
)

-- The keys of other classes are left alone.
hold_class_frame :
    (f : ModifierFlags) (o : Option ModifierKey) (p : ModifierSet) (c : Class) (s : ModifierSet)
    (j : ModifierKey)
    → IsSet8 s
    → same_key j c.left ≡ false
    → same_key j c.right ≡ false
    → contains (hold_class f o p c s) j ≡ contains s j
unfolding hold_class
hold_class_frame f o p c s j h l r = ground (
  arith,
  contains-insert_both (has_flags f c.left_bit) (has_flags f c.right_bit) c.left c.right j s h,
  hold_synthetic_frame c o p s j h l r,
)

-- The keys of one class, in a set that holds neither of them: a key of the class is held just if
-- the flag of the class is set, also where no device bit says which.
pub hold_class_own :
    (f : ModifierFlags) (o : Option ModifierKey) (p : ModifierSet) (c : Class) (s : ModifierSet)
    → IsSet8 s
    → contains s c.left ≡ false
    → contains s c.right ≡ false
    → let q = hold_class f o p c s in (contains q c.left || contains q c.right) ≡ has_flags f c.flag
unfolding hold_class
hold_class_own f o p c s h l r = ground (
  arith,
  contains-insert_both (has_flags f c.left_bit) (has_flags f c.right_bit) c.left c.right c.left s h,
  contains-insert_both (has_flags f c.left_bit) (has_flags f c.right_bit) c.left c.right c.right s
      h,
  hold_synthetic_holds c o p s h,
)

-- In a set that holds neither key of a class, with the flag of the class and one of its two device
-- bits set, the keys that are then held are exactly those of the device bits.
pub hold_class_exact :
    (f : ModifierFlags) (o : Option ModifierKey) (p : ModifierSet) (c : Class) (s : ModifierSet)
    → IsSet8 s
    → contains s c.left ≡ false
    → contains s c.right ≡ false
    → same_key c.left c.right ≡ false
    → has_flags f c.flag ≡ true
    → (has_flags f c.left_bit || has_flags f c.right_bit) ≡ true
    → let q = hold_class f o p c s in
      (contains q c.left ≡ has_flags f c.left_bit) × (contains q c.right ≡ has_flags f c.right_bit)
unfolding hold_class
hold_class_exact f o p c s h l r d e b = (
  ground (
    arith,
    contains-insert_both (has_flags f c.left_bit) (has_flags f c.right_bit) c.left c.right c.left s
        h,
  ),
  ground (
    arith,
    contains-insert_both (has_flags f c.left_bit) (has_flags f c.right_bit) c.left c.right c.right s
        h,
  ),
)
