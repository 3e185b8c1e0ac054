-- ===== src/Injectors/Client.antt =====
-- The client of the Toxiproxy package (github.com/Shopify/toxiproxy/v2/client), which
-- injectors/network.go calls, as a parameter, and what its documentation promises. A
-- *toxiproxy.Proxy is a reference (a number).
use chaoskit.Prelude.{ℕ, ◌≡◌, ◌≢◌, Bool, true, false, ◌&&◌, ◌==◌, if◌then◌else◌, Option, none, some}
use chaoskit.Prelude.Int.{ℤ}
use chaoskit.Text.{Str, str_eq}
use chaoskit.Dict.{Dict}
use chaoskit.Errors.{Error}

-- What a call answers: a value or an error.
pub data Answer {ℓ} (A : Type ℓ) : Type ℓ where
  given : A → Answer A
  failed : Error → Answer A

-- A call changes the state of the server and returns; a client does not panic.
abbrev pub Call {ℓ} : Type ℓ → Type ℓ → Type ℓ
Call W A = W → A × W

module _ {ℓ} {W A B : Type ℓ} where
  infixl 5 ◌>>=◌
  abbrev pub ◌>>=◌ : Call W A → (A → Call W B) → Call W B
  ◌>>=◌ m f w = f (m w).0 (m w).1

abbrev pub done {ℓ} : {W A : Type ℓ} → A → Call W A
done a w = (a, w)

-- `add_toxic` takes the proxy, the name, the type, the stream, the toxicity and the attributes.
pub record Toxiproxy (Float W : Type 0) : Type 0 where
  pub proxy : Str → Call W (Answer ℕ)
  pub create_proxy : Str → Str → Str → Call W (Answer ℕ)
  pub enable : ℕ → Call W (Option Error)
  pub delete : ℕ → Call W (Option Error)
  pub add_toxic : ℕ → Str → Str → Str → Float → Dict ℤ → Call W (Option Error)
  pub remove_toxic : ℕ → Str → Call W (Option Error)

-- What a call that answers an error leaves behind, and what one that answers none does.
abbrev pub OnAnswer : Option Error → Type 0 → Type 0 → Type 0
OnAnswer none P Q = P
OnAnswer (some e) P Q = Q

-- A table of toxics, changed at one place.
abbrev pub changed : ℕ → Str → Bool → (ℕ → Str → Bool) → ℕ → Str → Bool
changed r n b f q m = if (q == r) && str_eq m n then b else f q m

-- The toxics of a proxy have different names, and a call that fails changes none.
pub record ToxicLaws {Float W : Type 0} (c : Toxiproxy Float W) : Type 0 where
  pub has_toxic : W → ℕ → Str → Bool
  pub ref_of : Str → ℕ
  -- A look-up changes nothing, and finds the proxy of that name.
  pub proxy_keeps : (w : W) (n : Str) → has_toxic (c.proxy n w).1 ≡ has_toxic w
  pub proxy_ref : (w : W) (n : Str) (r : ℕ) → (c.proxy n w).0 ≡ given r → r ≡ ref_of n
  pub add_toxic_lem :
      (w : W) (r : ℕ) (n k s : Str) (f : Float) (a : Dict ℤ)
      → OnAnswer
          (c.add_toxic r n k s f a w).0
          ((has_toxic w r n ≡ false)
            × (has_toxic (c.add_toxic r n k s f a w).1 ≡ changed r n true (has_toxic w)))
          (has_toxic (c.add_toxic r n k s f a w).1 ≡ has_toxic w)
  pub remove_toxic_lem :
      (w : W) (r : ℕ) (n : Str)
      → OnAnswer
          (c.remove_toxic r n w).0
          ((has_toxic w r n ≡ true)
            × (has_toxic (c.remove_toxic r n w).1 ≡ changed r n false (has_toxic w)))
          (has_toxic (c.remove_toxic r n w).1 ≡ has_toxic w)

abbrev pub mark : ℕ → Bool → (ℕ → Bool) → ℕ → Bool
mark r b f s = if s == r then b else f s

-- What creating a proxy answers: a new proxy of a name that no living proxy has, or an error.
abbrev pub OnCreated : Answer ℕ → (ℕ → Type 0) → Type 0 → Type 0
OnCreated (given r) P Q = P r
OnCreated (failed e) P Q = Q

-- The server's proxies have different names, only creating and deleting change which there are,
-- and a call that fails changes none.
pub record ProxyLaws {Float W : Type 0} (c : Toxiproxy Float W) : Type 0 where
  pub alive : W → ℕ → Bool
  pub name_of : ℕ → Str
  pub create_lem :
      (w : W) (n l u : Str)
      → OnCreated
          (c.create_proxy n l u w).0
          (λ r.
            (name_of r ≡ n)
            × ((s : ℕ) → alive w s ≡ true → name_of s ≢ n)
            × (alive (c.create_proxy n l u w).1 ≡ mark r true (alive w)))
          (alive (c.create_proxy n l u w).1 ≡ alive w)
  pub enable_lem : (w : W) (r : ℕ) → alive (c.enable r w).1 ≡ alive w
  pub delete_lem :
      (w : W) (r : ℕ)
      → OnAnswer
          (c.delete r w).0
          (alive (c.delete r w).1 ≡ mark r false (alive w))
          (alive (c.delete r w).1 ≡ alive w)
