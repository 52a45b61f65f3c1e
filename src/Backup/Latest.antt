-- ===== src/Backup/Latest.antt =====
-- internal/storage/backup.go: the key found is the greatest of the keys on the pages.
use fusion_index.Prelude.{
  ◌≡◌, ◌≢◌, ◌↔◌, ◌⊎◌, inl, inr, refl, sym, ◌∙◌, Bool, true, false, Option, none, some, List, [],
  ◌∷◌, Text, arith, All, All-map, exists, text_eq, text_eq_refl, text_eq_iff, Bool-cases,
}
use fusion_index.Backup.{
  KeyPage, text_less, latest_on, latest_of, found_key, find_latest_backup_key,
}

-- The first string is not greater than the second.
abbrev pub AtMost : Text → Text → Type 0
AtMost s t = text_less t s ≡ false

pub less_refl : (s : Text) → text_less s s ≡ false
unfolding text_less
less_refl [] = refl
less_refl (c ∷ s) = ground (arith, less_refl s)

less_asym : (s t : Text) → text_less s t ≡ true → text_less t s ≡ false
unfolding text_less
less_asym [] [] h = refl
less_asym [] (d ∷ t) h = refl
less_asym (c ∷ s) [] h = cc
less_asym (c ∷ s) (d ∷ t) h = ground (arith, less_asym s t)

AtMost_trans : (s t u : Text) → AtMost s t → AtMost t u → AtMost s u
unfolding text_less
AtMost_trans [] t [] h k = refl
AtMost_trans [] t (e ∷ u) h k = refl
AtMost_trans (c ∷ s) [] u h k = cc
AtMost_trans (c ∷ s) (d ∷ t) [] h k = cc
AtMost_trans (c ∷ s) (d ∷ t) (e ∷ u) h k = ground (arith, AtMost_trans s t u)

AtMost_antisym : (s t : Text) → AtMost s t → AtMost t s → s ≡ t
unfolding text_less
AtMost_antisym [] [] h k = refl
AtMost_antisym [] (d ∷ t) h k = cc
AtMost_antisym (c ∷ s) [] h k = cc
AtMost_antisym (c ∷ s) (d ∷ t) h k = ground (arith, AtMost_antisym s t)

-- An object whose key, if it has one, satisfies a predicate; a page that is there with such objects.
abbrev pub KeyIs : (Text → Type 0) → Option Text → Type 0
KeyIs P none = Unit
KeyIs P (some key) = P key

abbrev pub PageIs : (Text → Type 0) → KeyPage → Type 0
PageIs P none = ⊥
PageIs P (some keys) = All (KeyIs P) keys

abbrev pub is_key : Text → Option Text → Bool
is_key key none = false
is_key key (some other) = text_eq key other

abbrev pub on_page : Text → KeyPage → Bool
on_page key none = false
on_page key (some keys) = exists (is_key key) keys

-- Every page is there, the key is that of an object on one of them, and no key is greater.
pub record IsLatest (pages : List KeyPage) (key : Text) : Type 0 where
  pub greatest : All (PageIs (λ k. AtMost k key)) pages
  pub there : exists (on_page key) pages ≡ true
  pub named : key ≢ []

-- What the loops keep: the result is at least what they start with, and either that or a key.
record Scanned {A : Type 0} (Is : (Text → Type 0) → A → Type 0) (has : Text → A → Bool)
    (latest : Text) (xs : List A) (key : Text) : Type 0 where
  start : AtMost latest key
  bound : All (Is (λ k. AtMost k key)) xs
  origin : (key ≡ latest) ⊎ (exists (has key) xs ≡ true)

KeyIs-map :
    {P Q : Text → Type 0} (f : (k : Text) → P k → Q k) (o : Option Text) → KeyIs P o → KeyIs Q o
KeyIs-map f none h = tt
KeyIs-map f (some k) h = f k h

latest_on-Scanned :
    (latest : Text) (keys : List (Option Text))
    → Scanned KeyIs is_key latest keys (latest_on latest keys)
unfolding latest_on exists
latest_on-Scanned latest [] = record { start = less_refl latest; bound = tt; origin = inl refl }
latest_on-Scanned latest (none ∷ keys) =
    let rest = latest_on-Scanned latest keys in
    record { start = rest.start; bound = (tt, rest.bound); origin = rest.origin }
latest_on-Scanned latest (some key ∷ keys) = elim (Bool-cases (text_less latest key)) [
  | inl e ↦
      let rest = latest_on-Scanned key keys in
      rw e (record {
        start = AtMost_trans latest key _ (less_asym latest key e) rest.start;
        bound = (rest.start, rest.bound);
        origin = elim rest.origin [
          | inl same ↦ inr (rw (same, text_eq_refl key) refl)
          | inr there ↦ inr (rw there (ground arith))
        ];
      })
  | inr e ↦
      let rest = latest_on-Scanned latest keys in
      rw e (record {
        start = rest.start;
        bound = (AtMost_trans key latest _ e rest.start, rest.bound);
        origin = elim rest.origin [
          | inl same ↦ inl same
          | inr there ↦ inr (rw there (ground arith))
        ];
      })
]

pub PageIs-map :
    {P Q : Text → Type 0} (f : (k : Text) → P k → Q k) (p : KeyPage) → PageIs P p → PageIs Q p
PageIs-map f none h = absurd h
PageIs-map f (some keys) h = All-map (KeyIs-map f) keys h

latest_of-Scanned :
    (latest : Text) (pages : List KeyPage) (key : Text)
    → latest_of latest pages ≡ some key
    → Scanned PageIs on_page latest pages key
unfolding latest_of exists
latest_of-Scanned latest [] key h =
    let e : latest ≡ key = cc h in
    record { start = rw e (less_refl key); bound = tt; origin = inl (sym e) }
latest_of-Scanned latest (none ∷ pages) key h = cc
latest_of-Scanned latest (some keys ∷ pages) key h =
    let page = latest_on-Scanned latest keys in
    let rest = latest_of-Scanned (latest_on latest keys) pages key h in
    record {
      start = AtMost_trans latest _ key page.start rest.start;
      bound = (
        PageIs-map (λ k le. AtMost_trans k _ key le rest.start) (some keys) page.bound,
        rest.bound,
      );
      origin = elim rest.origin [
        | inl same ↦ elim page.origin [
          | inl first ↦ inl (same ∙ first)
          | inr there ↦ inr (rw (same, there) refl)
        ]
        | inr there ↦ inr (rw there (ground arith))
      ];
    }

-- Where every page is there, the loop ends with a key.
latest_of-ends :
    (P : Text → Type 0) (latest : Text) (pages : List KeyPage)
    → All (PageIs P) pages
    → (key : Text) × (latest_of latest pages ≡ some key)
unfolding latest_of
latest_of-ends P latest [] h = (latest, refl)
latest_of-ends P latest (none ∷ pages) (h, hs) = absurd h
latest_of-ends P latest (some keys ∷ pages) (h, hs) =
    latest_of-ends P (latest_on latest keys) pages hs

-- A key that is on a page is one that satisfies what all keys satisfy.
on_page-IsGreatest :
    (P : Text → Type 0) (pages : List KeyPage) (key : Text)
    → All (PageIs P) pages
    → exists (on_page key) pages ≡ true
    → P key
unfolding exists
on_page-IsGreatest P [] key h there = cc
on_page-IsGreatest P (none ∷ pages) key (h, hs) there = absurd h
on_page-IsGreatest P (some keys ∷ pages) key (h, hs) there =
    elim (Bool-cases (exists (is_key key) keys)) [
      | inl e ↦ on_keys keys h e
      | inr e ↦ on_page-IsGreatest P pages key hs (ground (arith, there, e))
    ]
  where
    on_keys : (ks : List (Option Text)) → All (KeyIs P) ks → exists (is_key key) ks ≡ true → P key
    on_keys [] k e = cc
    on_keys (none ∷ ks) (k, rest) e = on_keys ks rest e
    on_keys (some other ∷ ks) (k, rest) e = elim (Bool-cases (text_eq key other)) [
      | inl same ↦ rw ((text_eq_iff key other).0 same) k
      | inr apart ↦ on_keys ks rest (ground (arith, e, apart))
    ]

found-some : (o : Option Text) (key : Text) → found_key o ≡ some key → (o ≡ some key) × (key ≢ [])
unfolding found_key
found-some none key h = cc
found-some (some []) key h = cc
found-some (some (c ∷ s)) key h = (h, λ e. cc)

found-named : (key : Text) → key ≢ [] → found_key (some key) ≡ some key
unfolding found_key
found-named [] h = absurd (h refl)
found-named (c ∷ s) h = refl

empty_first : (s : Text) → AtMost s [] → s ≡ []
unfolding text_less
empty_first [] h = refl
empty_first (c ∷ s) h = cc

-- A key is found exactly if every page of the list is there, the key is not empty, some object on the
-- pages has it, and no object on them has a greater one.
pub find_latest_backup_key-IsLatest :
    (pages : List KeyPage) (key : Text)
    → (find_latest_backup_key pages ≡ some key) ↔ IsLatest pages key
unfolding find_latest_backup_key
find_latest_backup_key-IsLatest pages key = (to, from)
  where
    to : found_key (latest_of [] pages) ≡ some key → IsLatest pages key
    to h =
        let (e, named) = found-some (latest_of [] pages) key h in
        let scan = latest_of-Scanned [] pages key e in
        record {
          greatest = scan.bound;
          named = named;
          there = elim scan.origin [ inl first ↦ absurd (named first) | inr there ↦ there ];
        }

    from : IsLatest pages key → found_key (latest_of [] pages) ≡ some key
    from k =
        let (found, e) = latest_of-ends _ [] pages k.greatest in
        let scan = latest_of-Scanned [] pages found e in
        let key_le : AtMost key found = on_page-IsGreatest _ pages key scan.bound k.there in
        let same : found ≡ key = elim scan.origin [
          | inl first ↦ absurd (k.named (empty_first key (rw (sym first) key_le)))
          | inr there ↦
              AtMost_antisym found key (on_page-IsGreatest _ pages found k.greatest there) key_le
        ] in
        rw (e, same) (found-named key k.named)
