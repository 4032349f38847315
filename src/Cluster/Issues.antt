-- ===== src/Cluster/Issues.antt =====
-- Which calls an action may issue, whatever the cluster answers.
use aitrigram.Base.{◌≡◌, ◌∷◌, Bool, true, false, if◌then◌else◌}
use aitrigram.Cluster.{Call, Env, History, M, pure, ask, ◌>>=◌, ◌>>◌}

-- The later history has the earlier one below it, and only calls with `P` above.
pub data Adds {ℓ} (P : Call → Type ℓ) (h : History) : History → Type ℓ where
  none_added : Adds P h h
  one_added : {h' : History} (c : Call) → P c → Adds P h h' → Adds P h (c ∷ h')

pub record Issues {ℓ κ} {A : Type κ} (P : Call → Type ℓ) (m : M A) : Type ℓ where
  pub at : (env : Env) (h : History) → Adds P h (m env h).1

module _ {ℓ} {P : Call → Type ℓ} where
  pub Adds-trans : {h h' h'' : History} → Adds P h h' → Adds P h' h'' → Adds P h h''
  Adds-trans a none_added = a
  Adds-trans a (one_added c p b) = one_added c p (Adds-trans a b)

module _ {ℓ κ} {A : Type κ} {P : Call → Type ℓ} where
  pub Issues-pure : (a : A) → Issues P (pure a)
  unfolding pure
  Issues-pure a = record { at = λ env h. none_added }

  pub Issues-ask : (c : Call) (answer : Env → History → A) → P c → Issues P (ask c answer)
  unfolding ask
  Issues-ask c answer p = record { at = λ env h. one_added c p none_added }

  pub Issues-if : (b : Bool) (m n : M A) → Issues P m → Issues P n → Issues P (if b then m else n)
  Issues-if true m n im in' = im
  Issues-if false m n im in' = in'

  pub Issues-else : (b : Bool) (m n : M A) → b ≡ false → Issues P n → Issues P (if b then m else n)
  Issues-else b m n e in' = rw e in'

  pub Adds-else :
      (b : Bool) (m n : M A) (env : Env) (h : History)
      → b ≡ false
      → Adds P h (n env h).1
      → Adds P h ((if b then m else n) env h).1
  Adds-else b m n env h e added = rw e added

module _ {ℓ κ ι} {A : Type κ} {B : Type ι} {P : Call → Type ℓ} where
  pub Issues-bind :
      (m : M A) (f : A → M B) → Issues P m → ((a : A) → Issues P (f a)) → Issues P (m >>= f)
  unfolding ◌>>=◌
  Issues-bind m f im if' = record {
    at = λ env h. Adds-trans (im.at env h) ((if' (m env h).0).at env (m env h).1);
  }

  pub Issues-then : (m : M A) (n : M B) → Issues P m → Issues P n → Issues P (m >> n)
  unfolding ◌>>◌
  Issues-then m n im in' = Issues-bind m (λ _. n) im (λ _. in')

module _ {ℓ κ} {P : Call → Type ℓ} {Q : Call → Type κ} where
  Adds-imp : {h h' : History} → ((c : Call) → P c → Q c) → Adds P h h' → Adds Q h h'
  Adds-imp f none_added = none_added
  Adds-imp f (one_added c p a) = one_added c (f c p) (Adds-imp f a)

  pub Issues-imp {ι} : {A : Type ι} (m : M A) → ((c : Call) → P c → Q c) → Issues P m → Issues Q m
  Issues-imp m f im = record { at = λ env h. Adds-imp f (im.at env h) }

pub ruleset issues_rules = (Issues-pure, Issues-ask, Issues-if, Issues-bind, Issues-then)
