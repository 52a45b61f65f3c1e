-- ===== src/Session/Objects.antt =====
-- The objects that storage holds after a put and after deletes.
use fusion_index.Prelude.{
  ◌≡◌, ◌≢◌, refl, ap, ◌∙◌, none, some, List, [], ◌∷◌, Text, arith, keep_if, find, All, text_eq_iff,
}
use fusion_index.Session.{
  Object, World, find_object, without, put_object, remove, remove_all, restore, rollback,
}

pub find_object-without :
    (p q : Text) (os : List Object) → p ≢ q → find_object q (without p os) ≡ find_object q os
unfolding find_object without find keep_if
find_object-without p q [] h = refl
find_object-without p q (o ∷ os) h =
    ground (arith, find_object-without p q os, text_eq_iff o.path p, text_eq_iff o.path q)

pub find_object-put_object_self :
    (p c : Text) (os : List Object)
    → find_object p (put_object p c os) ≡ some (record { path = p; content = c })
unfolding find_object put_object find
find_object-put_object_self p c os = ground (arith, text_eq_iff p p)

pub find_object-put_object_ne :
    (p q c : Text) (os : List Object) → p ≢ q → find_object q (put_object p c os) ≡ find_object q os
unfolding find_object put_object find
find_object-put_object_ne p q c os h = ground (arith, text_eq_iff p q, find_object-without p q os h)

-- A best-effort delete leaves the database, the transaction and the other objects as they were.
pub db-remove : (p : Text) (w : World) → (remove p w).db ≡ w.db
unfolding remove
db-remove p w = ground arith

pub saved-remove : (p : Text) (w : World) → (remove p w).saved ≡ w.saved
unfolding remove
saved-remove p w = ground arith

pub find_object-remove :
    (p q : Text) (w : World) → p ≢ q → find_object q (remove p w).objects ≡ find_object q w.objects
unfolding remove
find_object-remove p q w h = ground (arith, find_object-without p q w.objects)

pub db-remove_all : (ps : List Text) (w : World) → (remove_all ps w).db ≡ w.db
unfolding remove_all
db-remove_all [] w = refl
db-remove_all (p ∷ ps) w = db-remove_all ps (remove p w) ∙ db-remove p w

pub saved-remove_all : (ps : List Text) (w : World) → (remove_all ps w).saved ≡ w.saved
unfolding remove_all
saved-remove_all [] w = refl
saved-remove_all (p ∷ ps) w = saved-remove_all ps (remove p w) ∙ saved-remove p w

-- An object whose path is none of those deleted is there as before.
pub find_object-remove_all :
    (ps : List Text) (q : Text) (w : World)
    → All (λ p. p ≢ q) ps
    → find_object q (remove_all ps w).objects ≡ find_object q w.objects
unfolding remove_all
find_object-remove_all [] q w h = refl
find_object-remove_all (p ∷ ps) q w (h, hs) =
    find_object-remove_all ps q (remove p w) hs ∙ find_object-remove p q w h

-- With no transaction open a rollback does nothing.
pub rollback-idle : (w : World) → w.saved ≡ none → rollback w ≡ w
unfolding rollback
rollback-idle w e = ap (λ o. restore o w) e
