-- ===== src/Appliers/Sends.antt =====
-- What a call has asked of the API server.
use metacontroller.Prelude.{
  List, [], ◌∷◌, ◌++◌, append-nil, append_assoc, All, All-append, All-map, ◌≡◌, refl, sym, ◌∙◌,
}
use metacontroller.Appliers.{Request, World, record_request}

-- The requests made between two worlds, each of which has the property.
abbrev pub Sends : (Request → Type 0) → World → World → Type 0
Sends P w w' = (rs : List Request) × (w'.requests ≡ w.requests ++ rs) × All P rs

pub Sends-none : {P : Request → Type 0} (w : World) → Sends P w w
Sends-none w = ([], sym (append-nil w.requests), tt)

pub Sends-one :
    {P : Request → Type 0} (r : Request) (w : World) → P r → Sends P w (record_request r w)
Sends-one r w p = (r ∷ [], refl, (p, tt))

pub Sends-trans : {P : Request → Type 0} (u v w : World) → Sends P u v → Sends P v w → Sends P u w
Sends-trans {P} u v w (rs, e, p) (ss, f, q) =
    (rs ++ ss, f ∙ rw e (append_assoc u.requests rs ss), All-append P rs ss p q)

pub Sends-map :
    {P Q : Request → Type 0} (f : (r : Request) → P r → Q r) (v w : World)
    → Sends P v w
    → Sends Q v w
Sends-map f v w (rs, e, p) = (rs, e, All-map rs f p)
