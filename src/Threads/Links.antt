-- ===== src/Threads/Links.antt =====
-- The circular lists of <urcu/list.h>, which the binding only calls: an interface, and what its
-- documentation promises.
use wifiap_binding.Base.{
  ℕ, ◌≡◌, ◌++◌, Bool, false, ◌||◌, List, [], ◌∷◌, ◌==◌, if◌then◌else◌, refl, arith,
}

pub record CdsList : Type 1 where
  pub Head : Type 0
  -- `CDS_INIT_LIST_HEAD`
  pub empty : Head
  pub add_tail : ℕ → Head → Head
  pub del : ℕ → Head → Head
  -- the nodes that `cds_list_for_each` visits
  pub entries : Head → List ℕ

abbrev pub contains : List ℕ → ℕ → Bool
contains [] p = false
contains (q ∷ xs) p = q == p || contains xs p

pub record IsLawful (L : CdsList) : Type 0 where
  pub entries-empty : L.entries L.empty ≡ []
  pub entries-add_tail : (p : ℕ) (l : L.Head) → L.entries (L.add_tail p l) ≡ L.entries l ++ p ∷ []
  pub entries-del :
      (p : ℕ) (l : L.Head) (xs ys : List ℕ)
      → L.entries l ≡ xs ++ p ∷ ys
      → contains xs p ≡ false
      → L.entries (L.del p l) ≡ xs ++ ys

pub erase : ℕ → List ℕ → List ℕ
erase p [] = []
erase p (q ∷ xs) = let rest = erase p xs in if q == p then xs else q ∷ rest

-- Plain lists meet the promises.
abbrev pub plain_list : CdsList
plain_list = record {
  Head = List ℕ;
  empty = [];
  add_tail = λ p l. l ++ p ∷ [];
  del = erase;
  entries = λ l. l;
}

erase-append : (p : ℕ) (xs ys : List ℕ) → contains xs p ≡ false → erase p (xs ++ p ∷ ys) ≡ xs ++ ys
unfolding erase
erase-append p [] ys h = ground arith
erase-append p (q ∷ xs) ys h = ground (arith, erase-append p xs ys)

pub plain_list-IsLawful : IsLawful plain_list
plain_list-IsLawful = record {
  entries-empty = refl;
  entries-add_tail = λ p l. refl;
  entries-del = λ p l xs ys e h. rw e (erase-append p xs ys h);
}
