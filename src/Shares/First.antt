-- ===== src/Shares/First.antt =====
-- Which directories a listing shows: one for each child that a registered path stands for, with the
-- GUID of the first such path.
use suba_sync.Prelude.{
  Str, true, false, ◌≡◌, ◌≢◌, ◌⊎◌, ◌↔◌, inl, inr, refl, sym, ap, ap₂, subst, ◌∙◌, none, some, List,
  [], ◌∷◌, str_eq, str_beq_iff, Bool-cases, Option-cases, arith, Member, contains,
}
use suba_sync.Prelude.Dict.{Dict, lookup}
use suba_sync.Directories.{Directories}
use suba_sync.Shares.{RemoteListingItem}
use suba_sync.Shares.Listing.{listed_child, directory_item, directory_items}
use suba_sync.Shares.Below.{some_injective, IsChildOf, listed_child_iff}

-- The first entry whose path stands for the child has the GUID.
unfoldable pub IsFirst : Str → Str → Str → Dict Str Str → Type 0
IsFirst parent child guid [] = ⊥
IsFirst parent child guid ((path, g) ∷ rest) =
    (IsChildOf parent path child × (g ≡ guid))
    ⊎ (¬ IsChildOf parent path child × IsFirst parent child guid rest)

-- The peer that a GUID came from; the node itself where none is recorded.
pub IsOrigin : Str → Str → Dict Str Str → Str → Type 0
IsOrigin self guid origins peer =
    (lookup guid origins ≡ some peer) ⊎ ((lookup guid origins ≡ none) × (peer ≡ self))

-- The item shows the child directory with the GUID.
pub record IsDirectory (self child guid : Str) (d : Directories) (i : RemoteListingItem)
    : Type 0 where
  pub origin : Str
  pub is_origin : IsOrigin self guid d.dir_guid_origin origin
  pub shown : i ≡ record {
    peer_id = self;
    hash = [];
    relative_path = child;
    size = 0;
    is_directory = true;
    directory_guid = guid;
    origin_peer = origin;
    listing_root_path = [];
  }

IsOrigin-iff :
    (self guid peer : Str) (origins : Dict Str Str)
    → ((elim (lookup guid origins) [ none ↦ self | some origin ↦ origin ]) ≡ peer)
      ↔ IsOrigin self guid origins peer
unfolding IsOrigin
IsOrigin-iff self guid peer origins = elim (Option-cases (lookup guid origins)) [
  | inl absent ↦ rw absent (
    λ e. inr (refl, sym e),
    λ o. elim o [ inl found ↦ absurd (cc found) | inr (unknown, own) ↦ sym own ],
  )
  | inr (origin, found) ↦ rw found (
    λ e. inl (ap some e),
    λ o. elim o [ inl known ↦ some_injective _ _ known | inr (unknown, own) ↦ absurd (cc unknown) ],
  )
]

directory_item_iff :
    (self child guid : Str) (d : Directories) (i : RemoteListingItem)
    → (directory_item self d child guid ≡ i) ↔ IsDirectory self child guid d i
unfolding directory_item
directory_item_iff self child guid d i = (
  λ e. record {
    origin = elim (lookup guid d.dir_guid_origin) [ none ↦ self | some origin ↦ origin ];
    is_origin = (IsOrigin-iff self guid _ d.dir_guid_origin).0 refl;
    shown = sym e;
  },
  λ b.
      ap
        (λ (o : Str). record {
          peer_id = self;
          hash = [];
          relative_path = child;
          size = 0;
          is_directory = true;
          directory_guid = guid;
          origin_peer = o;
          listing_root_path = [];
        })
        ((IsOrigin-iff self guid b.origin d.dir_guid_origin).1 b.is_origin)
      ∙ sym b.shown,
)

-- What the loop shows of an iteration, the children seen before left out.
unfoldable pub Shows :
    Str → Directories → Str → List Str → Dict Str Str → RemoteListingItem → Type 0
Shows self d parent seen m i =
    (child : Str) × (guid : Str) × (contains seen child ≡ false)
    × IsFirst parent child guid m
    × IsDirectory self child guid d i

same_child :
    (parent path child c : Str)
    → listed_child parent path ≡ some child
    → IsChildOf parent path c
    → child ≡ c
same_child parent path child c h b =
    some_injective child c (sym h ∙ (listed_child_iff parent path c).1 b)

contains-cons :
    (child c : Str) (seen : List Str)
    → child ≢ c
    → contains seen c ≡ false
    → contains (child ∷ seen) c ≡ false
unfolding contains
contains-cons child c seen differ unseen = ground (arith, str_beq_iff child c)

pub contains-uncons :
    (child c : Str) (seen : List Str)
    → contains (child ∷ seen) c ≡ false
    → (child ≢ c) × (contains seen c ≡ false)
unfolding contains
contains-uncons child c seen h = ground (arith, str_beq_iff child c)

module _ (self : Str) (d : Directories) (parent : Str) where
  unfoldable pub Exact : List Str → Dict Str Str → Type 0
  Exact seen m =
      (i : RemoteListingItem)
      → Member i (directory_items self d parent seen m) ↔ Shows self d parent seen m i

  -- An entry that shows nothing new: every child that is still to be shown is not its child.
  skip :
      (path g : Str) (seen : List Str) (rest : Dict Str Str)
      → ((c : Str) → contains seen c ≡ false → ¬ IsChildOf parent path c)
      → (i : RemoteListingItem)
      → Shows self d parent seen rest i ↔ Shows self d parent seen ((path, g) ∷ rest) i
  unfolding Shows IsFirst
  skip path g seen rest other i = (
    λ (c, guid, unseen, first, dir). (c, guid, unseen, inr (other c unseen, first), dir),
    λ (c, guid, unseen, first, dir). elim first [
      | inl (child, same) ↦ absurd (other c unseen child)
      | inr (apart, first') ↦ (c, guid, unseen, first', dir)
    ],
  )

  -- An entry that shows a new child.
  show :
      (path g child : Str) (seen : List Str) (rest : Dict Str Str)
      → listed_child parent path ≡ some child
      → contains seen child ≡ false
      → (i : RemoteListingItem)
      → ((directory_item self d child g ≡ i) ⊎ Shows self d parent (child ∷ seen) rest i)
        ↔ Shows self d parent seen ((path, g) ∷ rest) i
  unfolding Shows IsFirst
  show path g child seen rest found new i = (
    λ m. elim m [
      | inl e ↦ (
        child,
        g,
        new,
        inl ((listed_child_iff parent path child).0 found, refl),
        (directory_item_iff self child g d i).0 e,
      )
      | inr (c, guid, unseen, first, dir) ↦
          let (differ, unseen') = contains-uncons child c seen unseen in
          (c, guid, unseen', inr (λ b. differ (same_child parent path child c found b), first), dir)
    ],
    λ (c, guid, unseen, first, dir). elim first [
      | inl (b, same) ↦ inl (
          ap₂ (directory_item self d) (same_child parent path child c found b) same
          ∙ (directory_item_iff self c guid d i).1 dir)
      | inr (apart, first') ↦
          let differ : child ≢ c =
            λ e. apart ((listed_child_iff parent path c).0 (found ∙ ap some e)) in
          inr (c, guid, contains-cons child c seen differ unseen, first', dir)
    ],
  )

  Exact-cons :
      (path g : Str) (seen : List Str) (rest : Dict Str Str)
      → ((seen' : List Str) → Exact seen' rest)
      → Exact seen ((path, g) ∷ rest)
  unfolding Exact directory_items
  Exact-cons path g seen rest more i = elim (Option-cases (listed_child parent path)) [
    | inl absent ↦
        let other =
          skip path g seen rest (λ c unseen b. cc (absent, (listed_child_iff parent path c).1 b))
            i in
        rw (directory_items, absent)
          (λ m. other.0 ((more seen i).0 m), λ s. (more seen i).1 (other.1 s))
    | inr (child, found) ↦ elim (Bool-cases (contains seen child)) [
      | inl old ↦
          let other =
            skip path g seen rest
              (λ c unseen b. cc (old, unseen, same_child parent path child c found b)) i in
          rw (directory_items, found, old)
            (λ m. other.0 ((more seen i).0 m), λ s. (more seen i).1 (other.1 s))
      | inr new ↦
          let shown = show path g child seen rest found new i in
          rw (directory_items, found, new)
            (
              λ m. elim m [
                | inl e ↦ shown.0 (inl e)
                | inr there ↦ shown.0 (inr ((more (child ∷ seen) i).0 there))
              ],
              λ s. elim (shown.1 s) [
                | inl e ↦ inl e
                | inr there ↦ inr ((more (child ∷ seen) i).1 there)
              ],
            )
    ]
  ]

  -- The loop shows exactly the children of the iteration that it has not seen, each with the GUID of
  -- its first entry.
  pub directory_items-Exact : (seen : List Str) (m : Dict Str Str) → Exact seen m
  unfolding Exact directory_items Shows IsFirst
  directory_items-Exact seen [] i = (λ m. elim m [ ], λ (c, guid, unseen, first, dir). absurd first)
  directory_items-Exact seen ((path, g) ∷ rest) i =
      Exact-cons path g seen rest (λ seen'. directory_items-Exact seen' rest) i

  IsFirst-unique :
      (child guid guid' : Str) (m : Dict Str Str)
      → IsFirst parent child guid m
      → IsFirst parent child guid' m
      → guid ≡ guid'
  unfolding IsFirst
  IsFirst-unique child guid guid' [] first first' = absurd first
  IsFirst-unique child guid guid' ((path, g) ∷ rest) (inl (b, e)) (inl (b', e')) = sym e ∙ e'
  IsFirst-unique child guid guid' ((path, g) ∷ rest) (inl (b, e)) (inr (apart, first')) =
      absurd (apart b)
  IsFirst-unique child guid guid' ((path, g) ∷ rest) (inr (apart, first)) (inl (b', e')) =
      absurd (apart b')
  IsFirst-unique child guid guid' ((path, g) ∷ rest) (inr (apart, first)) (inr (apart', first')) =
      IsFirst-unique child guid guid' rest first first'

  -- In whatever order the registry is iterated: a child that a path of it stands for is shown with
  -- the GUID of the first such path, and what is shown of that child is shown with no other GUID. So
  -- a path below the child that comes before the child gives it a GUID that is not its own.
  pub directory_items-first :
      (child guid : Str) (m : Dict Str Str)
      → IsFirst parent child guid m
      → (i : RemoteListingItem)
      → (Member i (directory_items self d parent [] m) × (i.relative_path ≡ child))
        ↔ IsDirectory self child guid d i
  unfolding Exact Shows contains
  directory_items-first child guid m first i = (
    λ (here, named).
        let (c, g, unseen, first', dir) = (directory_items-Exact [] m i).0 here in
        let same : c ≡ child =
          sym (ap (λ (j : RemoteListingItem). j.relative_path) dir.shown) ∙ named in
        let firsts =
          subst (λ (x : Str). IsFirst parent x g m × IsDirectory self x g d i) same (first', dir) in
        subst (λ (x : Str). IsDirectory self child x d i)
          (IsFirst-unique child g guid m firsts.0 first) firsts.1,
    λ dir. (
      (directory_items-Exact [] m i).1 (child, guid, refl, first, dir),
      ap (λ (j : RemoteListingItem). j.relative_path) dir.shown,
    ),
  )
