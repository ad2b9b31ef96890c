-- ===== src/Proxy/Pipe.antt =====
-- internal/master/proxy/proxy.go: pipe, which copies the bytes of a connection both ways. The two
-- goroutines and the peers move as they like: each step is one read, one write, one failure of
-- these, or what a goroutine does after io.Copy.
pub mod Delivered
pub mod Ended
use pumpkin_pie.Prelude.{
  ℕ, ◌≡◌, ◌≢◌, Bool, true, false, not, List, [], ◌∷◌, ◌++◌, ◌||◌, if◌then◌else◌,
}

pub data Stage : Type 0 where
  -- io.Copy runs
  copying : Stage
  -- io.Copy has returned
  copied : Stage
  -- closeWrite has returned, and `done` was sent
  finished : Stage

-- One direction. `unread` is what its source would still send before it ends, `held` the buffer of
-- io.Copy, `failed` says that io.Copy returned an error, and `cut` that the source was closed here.
pub record Flow : Type 0 where
  pub unread : List ℕ
  pub held : List ℕ
  pub written : List ℕ
  pub stage : Stage
  pub failed : Bool
  pub cut : Bool

-- io.Copy, by its reads and writes.
pub data Copy : Flow → Flow → Type 0 where
  reads :
      (f : Flow) (b : ℕ) (bs rest : List ℕ)
      → f.stage ≡ copying
      → f.cut ≡ false
      → f.held ≡ []
      → f.unread ≡ (b ∷ bs) ++ rest
      → Copy f (record f { held = b ∷ bs; unread = rest })
  writes :
      (f : Flow) (b : ℕ) (bs : List ℕ)
      → f.stage ≡ copying
      → f.held ≡ b ∷ bs
      → Copy f (record f { held = []; written = f.written ++ f.held })
  ends :
      (f : Flow)
      → f.stage ≡ copying
      → f.cut ≡ false
      → f.held ≡ []
      → f.unread ≡ []
      → Copy f (record f { stage = copied })
  read_fails :
      (f : Flow)
      → f.stage ≡ copying
      → f.held ≡ []
      → Copy f (record f { stage = copied; failed = true })
  write_fails :
      (f : Flow) (sent lost : List ℕ)
      → f.stage ≡ copying
      → f.held ≡ sent ++ lost
      → Copy f
          (record f { held = lost; written = f.written ++ sent; stage = copied; failed = true })

-- pipe(a, b), with the direction from a to b and the one from b to a; a connection of which
-- `half_closes` is false has no CloseWrite.
pub record Bridge : Type 0 where
  pub forth : Flow
  pub back : Flow
  pub a_half_closes : Bool
  pub b_half_closes : Bool

-- What closeWrite of a connection does to the direction that reads from it: nothing, or, where it
-- falls back to Close, there is nothing more to read.
unfoldable pub close_write : Bool → Flow → Flow
close_write half_closes f = if half_closes then f else record f { cut = true }

unfoldable pub finish_forth : Bridge → Bridge
unfolding close_write
finish_forth p = record p {
  forth = record (p.forth) { stage = finished };
  back = close_write p.b_half_closes p.back;
}

unfoldable pub finish_back : Bridge → Bridge
unfolding close_write
finish_back p = record p {
  back = record (p.back) { stage = finished };
  forth = close_write p.a_half_closes p.forth;
}

pub data Step : Bridge → Bridge → Type 0 where
  copies_forth : (p : Bridge) (f : Flow) → Copy p.forth f → Step p (record p { forth = f })
  copies_back : (p : Bridge) (f : Flow) → Copy p.back f → Step p (record p { back = f })
  finishes_forth : (p : Bridge) → p.forth.stage ≡ copied → Step p (finish_forth p)
  finishes_back : (p : Bridge) → p.back.stage ≡ copied → Step p (finish_back p)

pub data Piped (p : Bridge) : Bridge → Type 0 where
  still : Piped p p
  moved : {q r : Bridge} → Piped p q → Step q r → Piped p r

-- pipe has received both values of `done`, and returns.
abbrev pub HasReturned : Bridge → Type 0
HasReturned p = (p.forth.stage ≡ finished) × (p.back.stage ≡ finished)

unfoldable pub flow_of : List ℕ → Flow
flow_of bytes = record {
  unread = bytes;
  held = [];
  written = [];
  stage = copying;
  failed = false;
  cut = false;
}

-- The call of pipe on connections whose peers send `forth` and `back` before they end.
unfoldable pub bridge_of : Bool → Bool → List ℕ → List ℕ → Bridge
unfolding flow_of
bridge_of a b forth back = record {
  forth = flow_of forth;
  back = flow_of back;
  a_half_closes = a;
  b_half_closes = b;
}
