-- ===== src/Compute/Served.antt =====
-- The whole loop of `help_others`: what it leaves in the buffers, the queue and the replies.
use di_store.Base.{
  ℕ, ◌≡◌, ◌⊎◌, inl, inr, refl, sym, ◌∙◌, false, not, List, [], ◌∷◌, ◌++◌, map, Bytes, str_lt,
  Bool-cases,
}
use mathlib.Core.List.{append-nil, append_assoc, map-append}
use di_store.DataLayer.{LinkedNode, store}
use di_store.DataLayer.Find.{IsWellFormed}
use di_store.Compute.Told.{Told, help_loop-Told}
use di_store.Compute.Requests.{Request, Reply, Serving, help_pred, help_loop, help_others}
use di_store.Compute.Serve.{
  AllSized, Grows, Grows-trans, Grows-refl, Stored, store-Stored, IsSound, Helped, help_pred-Helped,
  Acked, Acked-Grows, Acked-append,
}

abbrev pub request_of : Reply → Request
request_of a = a.request

-- Where the requests are: replied to in the order of the queue, and if the loop stopped early, the one
-- that it stopped at stands behind those that came after it.
abbrev pub Ordered : List Request → List Request → List Reply → Type 0
Ordered asked left replies =
    ((left ≡ []) × (map request_of replies ≡ asked))
    ⊎ ((req : Request) × (later : List Request) × (left ≡ later ++ req ∷ [])
        × (map request_of replies ++ req ∷ later ≡ asked))

module _ (city : Bytes → ℕ) (cap : ℕ) (anchor : Bytes) where
  pub record Served (pred real : LinkedNode) (asked : List Request) (s : Serving) : Type 0 where
    pub pred_sound : IsSound city s.pred
    pub real_sound : IsWellFormed city cap s.real
    pub pred_grows : Grows pred s.pred
    pub real_grows : Grows real s.real
    pub acked : Acked anchor s.pred s.real s.replies
    pub ordered : Ordered asked s.requests s.replies

  pub Served-later :
      (pred pred' real real' : LinkedNode) (asked : List Request) (s : Serving)
      → Grows pred pred'
      → Grows real real'
      → Served pred' real' asked s
      → Served pred real asked s
  Served-later pred pred' real real' asked s gp gr h = record {
    pred_sound = h.pred_sound;
    real_sound = h.real_sound;
    pred_grows = Grows-trans pred pred' s.pred gp h.pred_grows;
    real_grows = Grows-trans real real' s.real gr h.real_grows;
    acked = h.acked;
    ordered = h.ordered;
  }

  next_asked :
      (done : List Reply) (a : Reply) (rs : List Request)
      → map request_of (done ++ a ∷ []) ++ rs ≡ map request_of done ++ a.request ∷ rs
  next_asked done a rs = simp (map-append, append_assoc)

  pub help_loop-Served :
      (pred real : LinkedNode) (rs : List Request) (done : List Reply) (asked : List Request)
      → map request_of done ++ rs ≡ asked
      → IsSound city pred
      → IsWellFormed city cap real
      → AllSized rs
      → Acked anchor pred real done
      → Served pred real asked (help_loop city cap anchor pred real rs done)
  unfolding help_loop
  help_loop-Served pred real [] done asked e p r s k = record {
    pred_sound = p;
    real_sound = r;
    pred_grows = Grows-refl pred;
    real_grows = Grows-refl real;
    acked = k;
    ordered = inl (refl, sym (append-nil _) ∙ e);
  }
  help_loop-Served pred real (req ∷ rs) done asked e p r s k =
      let (pred', helped) = help_pred city req.tag req.content pred in
      let (real', stored) = store city cap req.tag req.content real in
      let h : Helped city req.tag pred (pred', helped) =
        help_pred-Helped city pred req.tag req.content p s.0 s.1 in
      let t : Stored city cap req.tag real (real', stored) =
        store-Stored city cap real req.tag req.content r s.0 s.1 in
      let from_pred : Reply = record { request = req; succeed = helped; retry = not helped } in
      let from_real : Reply = record { request = req; succeed = stored; retry = false } in
      let pred_kept : Grows pred pred = Grows-refl pred in
      let real_kept : Grows real real = Grows-refl real in
      elim (Bool-cases (str_lt req.tag anchor)) [
        | inl below ↦
            let ih =
              help_loop-Served pred' real rs (done ++ from_pred ∷ []) asked
                (next_asked done from_pred rs ∙ e) h.sound r s.2
                (Acked-append anchor pred' real done from_pred
                  (Acked-Grows anchor pred real pred' real done h.grows real_kept k)
                  (λ ok. rw below (h.acked ok))) in
            rw below (Served-later pred pred' real real asked _ h.grows real_kept ih)
        | inr above ↦
            let grown = Acked-Grows anchor pred real pred real' done pred_kept t.grows k in
            let ih =
              help_loop-Served pred real' rs (done ++ from_real ∷ []) asked
                (next_asked done from_real rs ∙ e) p t.sound s.2
                (Acked-append anchor pred real' done from_real grown
                  (λ ok. rw above (t.acked ok))) in
            rw above (elim (Bool-cases stored) [
              | inl ok ↦
                  let last = help_loop city cap anchor pred real' rs (done ++ from_real ∷ []) in
                  rw ok
                    (rw ok at (Served-later pred pred real real' asked last pred_kept t.grows ih))
              | inr full ↦ rw full (record {
                pred_sound = p;
                real_sound = t.sound;
                pred_grows = pred_kept;
                real_grows = t.grows;
                acked = grown;
                ordered = inr (req, rs, refl, e);
              })
            ])
      ]

  -- With sound buffers, requests of 16 bytes and no replies yet, `help_others` loses no entry of either
  -- buffer, keeps both sound, replies in the order of the queue, and puts back at most one request, the one
  -- that the full node could not take, behind those after it. Each reply says success or retry, and what
  -- a buffer then has for a key is what it had, or else the value of the first request with that key that
  -- was told success: of those below the anchor in the predecessor's buffer, of the others in the node's.
  pub help_others-Served :
      (s : Serving)
      → IsSound city s.pred
      → IsWellFormed city cap s.real
      → AllSized s.requests
      → s.replies ≡ []
      → Served s.pred s.real s.requests (help_others city cap anchor s)
        × Told anchor s.pred s.real [] (help_others city cap anchor s)
  unfolding help_others
  help_others-Served s p r sized fresh = (
    help_loop-Served s.pred s.real s.requests s.replies s.requests (rw fresh) p r sized
        (rw fresh tt),
    rw fresh (help_loop-Told city cap anchor s.pred s.real s.requests [] p r sized),
  )
