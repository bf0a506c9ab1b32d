-- ===== src/Net/Socket/Owned.antt =====
-- Which descriptors a process has open, as the calls of a Socket change it.
use lo_netfw.Base.{ℕ, List, [], ◌∷◌, Option, none, some, ◌==◌, if◌then◌else◌, ◌≡◌}
use lo_netfw.Net.Socket.{System, SockOpt, OptValue}

abbrev pub with_fd : Option ℕ → List ℕ → List ℕ
with_fd none xs = xs
with_fd (some n) xs = n ∷ xs

abbrev pub without : ℕ → List ℕ → List ℕ
without n [] = []
without n (x ∷ xs) = if n == x then xs else x ∷ without n xs

-- `owned` lists the open descriptors: socket and accept add the one that they give, close takes one
-- out, and no other call changes the list.
pub record Tracks {S : Type 0} (sys : System S) : Type 0 where
  pub owned : S → List ℕ
  pub owned-socket :
      (family kind protocol : ℕ) (w : S)
      → owned (sys.socket family kind protocol w).1
        ≡ with_fd (sys.socket family kind protocol w).0 (owned w)
  pub owned-accept :
      (n : Option ℕ) (w : S) → owned (sys.accept n w).1 ≡ with_fd (sys.accept n w).0 (owned w)
  pub owned-close : (n : ℕ) (w : S) → owned (sys.close n w) ≡ without n (owned w)
  pub owned-bind : (n : Option ℕ) (addr : List ℕ) (w : S) → owned (sys.bind n addr w).1 ≡ owned w
  pub owned-connect :
      (n : Option ℕ) (addr : List ℕ) (w : S) → owned (sys.connect n addr w).1 ≡ owned w
  pub owned-connect_with_timeout :
      (n : Option ℕ) (addr : List ℕ) (t : ℕ) (w : S)
      → owned (sys.connect_with_timeout n addr t w).1 ≡ owned w
  pub owned-listen : (n : Option ℕ) (b : ℕ) (w : S) → owned (sys.listen n b w).1 ≡ owned w
  pub owned-setsockopt :
      (n : Option ℕ) (o : SockOpt) (v : OptValue) (w : S)
      → owned (sys.setsockopt n o v w).1 ≡ owned w
  pub owned-getsockopt :
      (n : Option ℕ) (o : SockOpt) (w : S) → owned (sys.getsockopt n o w).1 ≡ owned w
