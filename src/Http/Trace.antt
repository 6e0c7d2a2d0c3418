-- ===== src/Http/Trace.antt =====
-- What a trace shows: the requests sent to the AxonOps API, and the objects written to Kubernetes.
use axonops_operator.Prelude.{String, Option, List, [], ◌∷◌}
use axonops_operator.Http.{Request, Call, sent, updated, status_updated, observed}

module _ {O : Type 0} where
  -- The requests, the last one first.
  abbrev pub requests : List (Call O) → List Request
  requests [] = []
  requests (sent r ∷ cs) = r ∷ requests cs
  requests (updated o ∷ cs) = requests cs
  requests (status_updated o ∷ cs) = requests cs
  requests (observed a b c ∷ cs) = requests cs

  -- The objects that were written with their metadata and specification.
  abbrev pub updates : List (Call O) → List O
  updates [] = []
  updates (sent r ∷ cs) = updates cs
  updates (updated o ∷ cs) = o ∷ updates cs
  updates (status_updated o ∷ cs) = updates cs
  updates (observed a b c ∷ cs) = updates cs

  -- The objects that were written with their status.
  abbrev pub status_updates : List (Call O) → List O
  status_updates [] = []
  status_updates (sent r ∷ cs) = status_updates cs
  status_updates (updated o ∷ cs) = status_updates cs
  status_updates (status_updated o ∷ cs) = o ∷ status_updates cs
  status_updates (observed a b c ∷ cs) = status_updates cs

  -- The outcomes that the metrics saw: the controller, the result and the error's class.
  abbrev pub observations : List (Call O) → List (String × String × Option String)
  observations [] = []
  observations (sent r ∷ cs) = observations cs
  observations (updated o ∷ cs) = observations cs
  observations (status_updated o ∷ cs) = observations cs
  observations (observed a b c ∷ cs) = (a, b, c) ∷ observations cs
