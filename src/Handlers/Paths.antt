-- ===== src/Handlers/Paths.antt =====
-- The storage path of a file tells its id, whatever its name holds.
use fusion_index.Prelude.{ℕ, ◌≡◌, refl, sym, ◌∙◌, true, [], ◌∷◌, ◌++◌, Text, arith, All}
use fusion_index.Strconv.{is_digit, print}
use fusion_index.Strconv.RoundTrip.{print-Digits, print-injective}
use fusion_index.Semver.{Semver}
use fusion_index.Handlers.{file_storage_path}

-- Digits up to the first slash are determined.
digits-append_slash :
    (d e s t : Text)
    → All (λ c. is_digit c ≡ true) d
    → All (λ c. is_digit c ≡ true) e
    → d ++ b'/' ∷ s ≡ e ++ b'/' ∷ t
    → (d ≡ e) × (s ≡ t)
unfolding is_digit
digits-append_slash [] [] s t hd he h = (refl, cc)
digits-append_slash [] (c ∷ e) s t hd (p, he) h = ground arith
digits-append_slash (c ∷ d) [] s t (p, hd) he h = ground arith
digits-append_slash (c ∷ d) (b ∷ e) s t (p, hd) (q, he) h =
    let (x, y) = digits-append_slash d e s t hd he (cc) in ((cc), y)

print-append_slash :
    (m n : ℕ) (s t : Text) → print m ++ b'/' ∷ s ≡ print n ++ b'/' ∷ t → (m ≡ n) × (s ≡ t)
print-append_slash m n s t h =
    let (x, y) = digits-append_slash (print m) (print n) s t (print-Digits m) (print-Digits n) h in
    (print-injective m n x, y)

-- The path determines every coordinate, the file id and the name among them.
file_storage_path-injective :
    (a b i j : ℕ) (u v : Semver) (m n : Text)
    → file_storage_path a u i m ≡ file_storage_path b v j n
    → (a ≡ b) × (u ≡ v) × (i ≡ j) × (m ≡ n)
unfolding file_storage_path
file_storage_path-injective a b i j u v m n h =
    let (e1, h1) = print-append_slash a b _ _ h in
    let (e2, h2) = print-append_slash u.major v.major _ _ h1 in
    let (e3, h3) = print-append_slash u.minor v.minor _ _ h2 in
    let (e4, h4) = print-append_slash u.patch v.patch _ _ h3 in
    let (e5, h5) = print-append_slash i j _ _ h4 in
    (e1, λ k. record { major = e2 k; minor = e3 k; patch = e4 k }, e5, h5)

-- A path that belongs to the file with this id.
abbrev pub Owns : ℕ → Text → Type 0
Owns i p = (a : ℕ) × (sv : Semver) × (name : Text) × (p ≡ file_storage_path a sv i name)

pub Owns-injective : (i j : ℕ) (p : Text) → Owns i p → Owns j p → i ≡ j
Owns-injective i j p (a, u, m, e) (b, v, n, f) =
    (file_storage_path-injective a b i j u v m n (sym e ∙ f)).2
