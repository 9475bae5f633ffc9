-- ===== src/Mux/Session/Allocation.antt =====
-- `Allocate` gives out identifiers that no live session has, within the strategy's limits.
use xray_core_python.Prelude.{
  ℕ, ◌≤◌, ◌≡◌, refl, ◌∙◌, Bool, true, false, ◌&&◌, ◌||◌, Option, none, List, [], ◌∷◌, ltb, leb,
  ◌==◌, if◌then◌else◌, u16, IsU16, All, Bool-cases, inl, inr, lookup, erase, lookup-erase,
}
use xray_core_python.Mux.Session.{Session, SessionManager, ClientStrategy, size, remove, get}

-- Every identifier in the map was given out, 1 the first and the count the last, and the numbers
-- have not come round.
pub record IsNumbered (m : SessionManager) : Type 0 where
  pub given : All (λ (e : ℕ × Session). (1 ≤ e.0) × (e.0 ≤ m.count)) m.sessions
  pub count_word : IsU16 m.count

All-erase :
    (count k : ℕ) (l : List (ℕ × Session))
    → All (λ (e : ℕ × Session). (1 ≤ e.0) × (e.0 ≤ count)) l
    → All (λ (e : ℕ × Session). (1 ≤ e.0) × (e.0 ≤ count)) (erase k l)
All-erase count k [] h = tt
All-erase count k ((i, s) ∷ l) h = elim (Bool-cases (i == k)) [
  | inl e ↦ rw e (All-erase count k l h.1)
  | inr e ↦ rw e (h.0, All-erase count k l h.1)
]

abbrev pub is_refused : ClientStrategy → SessionManager → Bool
is_refused strategy m =
    m.closed
    || (ltb 0 strategy.max_concurrency && leb strategy.max_concurrency (size m))
    || (ltb 0 (u16 strategy.max_connection) && leb (u16 strategy.max_connection) m.count)

remove_closed : (id : ℕ) (m : SessionManager) → m.closed ≡ true → remove id m ≡ m
unfolding remove
remove_closed id m c = rw c refl

remove_live :
    (id : ℕ) (m : SessionManager)
    → m.closed ≡ false
    → remove id m ≡ record m { sessions = erase id m.sessions }
unfolding remove
remove_live id m o = rw o refl

get_closed : (k : ℕ) (m : SessionManager) → m.closed ≡ true → get k m ≡ none
unfolding get
get_closed k m c = rw c refl

get_live : (k : ℕ) (m : SessionManager) → m.closed ≡ false → get k m ≡ lookup k m.sessions
unfolding get
get_live k m o = rw o refl

abbrev no_session : Option Session
no_session = none

none_both : (b : Bool) → no_session ≡ (if b then none else none)
none_both true = refl
none_both false = refl

-- In a manager whose identifiers are numbered, to remove a session takes out that one and no other,
-- and the identifiers stay numbered.
pub remove-get :
    (id k : ℕ) (m : SessionManager)
    → IsNumbered m
    → (get k (remove id m) ≡ (if id == k then none else get k m)) × IsNumbered (remove id m)
remove-get id k m n = elim (Bool-cases m.closed) [
  | inl c ↦ rw (remove_closed id m c, get_closed k m c) (none_both (id == k), n)
  | inr o ↦
      rw (remove_live id m o, get_live k m o)
        (
          get_live k (record m { sessions = erase id m.sessions }) o ∙ lookup-erase k id m.sessions,
          record { given = All-erase m.count id m.sessions n.given; count_word = n.count_word },
        )
]
