-- ===== src/Eset/Http/Frames.antt =====
-- What an exchange leaves alone: the token and the clock; it logs its request and takes one reply.
use eset_incident_ai.Prelude.{◌-◌, ◌≡◌, refl, sym, List, [], ◌∷◌, length, arith}
use eset_incident_ai.Eset.Http.{Reply, response, lost, Request, Connection, answer, exchange}

pub record Exchanged (r : Request) (c c' : Connection) : Type 0 where
  pub token_kept : c'.token ≡ c.token
  pub now_kept : c'.now ≡ c.now
  pub logged : c'.sent ≡ r ∷ c.sent
  pub taken : length c'.replies ≡ length c.replies - 1

module _ (r : Request) (c : Connection) where
  answer-Exchanged :
      (rs : List Reply)
      → rs ≡ c.replies
      → Exchanged r c (answer rs (record c { sent = r ∷ c.sent })).1
  answer-Exchanged [] e = record {
    token_kept = refl;
    now_kept = refl;
    logged = refl;
    taken = rw (sym e) refl;
  }
  answer-Exchanged (lost name ∷ rs) e = record {
    token_kept = refl;
    now_kept = refl;
    logged = refl;
    taken = rw (sym e) (omega arith);
  }
  answer-Exchanged (response status body ∷ rs) e = record {
    token_kept = refl;
    now_kept = refl;
    logged = refl;
    taken = rw (sym e) (omega arith);
  }

  pub exchange-Exchanged : Exchanged r c (exchange r c).1
  unfolding exchange
  exchange-Exchanged = answer-Exchanged c.replies refl
