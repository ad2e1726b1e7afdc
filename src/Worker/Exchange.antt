-- ===== src/Worker/Exchange.antt =====
-- worker/src/processor.rs, helper.rs and worker.rs together: one worker fetches from another a batch that
-- the other has processed. The network delivers what the helper sends.
use tusk_ubuntu.Prelude.{
  suc, ◌^◌, ◌<◌, ◌≡◌, ◌∙◌, refl, sym, ap, true, Option, none, some, List, [], ◌∷◌, ◌++◌, map, In,
  here, In-append_right, In-cons, All, All-In, In-map, inl, inr,
}
use mathlib.Core.List.{append-nil, append_assoc}
use tusk_ubuntu.Prelude.Result.{Result-cases, ok}
use tusk_ubuntu.Config.{PublicKey, SocketAddr, WorkerId, WorkerAddresses, Committee, worker}
use tusk_ubuntu.Crypto.{Digest}
use tusk_ubuntu.Store.{Value, digest_key}
use tusk_ubuntu.Network.Connection.{Bytes}
use tusk_ubuntu.Network.Receiver.{serve, serve-handled}
use tusk_ubuntu.Worker.Processor.{Setup, Processor, run}
use tusk_ubuntu.Worker.Processor.Stored.{Laws, IsBatch, IsAddressed, run-Holds, run-IsAddressed}
use tusk_ubuntu.Worker.Helper.{found, reply, answer}
use tusk_ubuntu.Worker.Dispatch.{WorkerMessage, WorkerReceiverHandler, dispatch_worker}

module _ {D : Type 0} (setup : Setup D) (decode : Bytes → Option WorkerMessage) where
  open setup use {primitives, database}

  -- The helper sends what the store holds under a digest of the request.
  reply-In :
      (id : WorkerId) (committee : Committee) (store : D) (address : SocketAddr) (d : Digest)
      (value : Value) (digests : List Digest)
      → database.get store (digest_key d) ≡ ok (some value)
      → In d digests
      → In (address, value) (reply id committee database store address digests)
  unfolding reply
  reply-In id committee store address d value [] h i = elim i [ ]
  reply-In id committee store address d value (x ∷ xs) h i = elim (In-cons i) [
    | inl e ↦ rw (← e, h) (here refl)
    | inr j ↦
        In-append_right
          (found id committee database store address (database.get store (digest_key x))) _
          (reply-In id committee store address d value xs h j)
  ]

  -- The helper sends batches only, and to the one address.
  reply-All :
      (id : WorkerId) (committee : Committee) (store : D) (address : SocketAddr)
      (digests : List Digest)
      → IsAddressed setup decode store
      → All (λ d. d < 256 ^ 32) digests
      → All
          (λ m. (m.0 ≡ address) × IsBatch decode m.1)
          (reply id committee database store address digests)
  unfolding reply
  reply-All id committee store address [] a fits = tt
  reply-All id committee store address (d ∷ ds) a fits =
      let rest = reply-All id committee store address ds a fits.1 in
      elim (Result-cases (database.get store (digest_key d))) [
        | inr (e, q) ↦ rw q rest
        | inl (none, q) ↦ rw q rest
        | inl (some value, q) ↦ rw q ((refl, (a d value fits.0 q).1), rest)
      ]

  -- The handler puts each batch that it receives into the channel of the processor.
  serve-batches :
      (messages : List (SocketAddr × Bytes)) (address : SocketAddr) (s : WorkerReceiverHandler)
      → All (λ m. (m.0 ≡ address) × IsBatch decode m.1) messages
      → (serve (dispatch_worker decode) (map (λ m. some m.1) messages) s).tx_processor
        ≡ s.tx_processor ++ map (λ m. m.1) messages
  unfolding serve dispatch_worker
  serve-batches [] address s a = sym (append-nil s.tx_processor)
  serve-batches ((x, bytes) ∷ messages) address s a =
      let (e, (b, q)) = a.0 in
      let next : WorkerReceiverHandler = record s {
        acks = suc s.acks;
        tx_processor = s.tx_processor ++ bytes ∷ [];
      } in
      let now : dispatch_worker decode bytes s ≡ (next, true) = rw (dispatch_worker, q) refl in
      ap (λ t. t.tx_processor)
        (serve-handled (dispatch_worker decode) bytes (map (λ m. some m.1) messages) s now)
      ∙ serve-batches messages address next a.1
      ∙ append_assoc s.tx_processor (bytes ∷ []) (map (λ m. m.1) messages)

  messages-IsBatch :
      (messages : List (SocketAddr × Bytes)) (address : SocketAddr)
      → All (λ m. (m.0 ≡ address) × IsBatch decode m.1) messages
      → All (λ m. m.0 ≡ address) messages × All (IsBatch decode) (map (λ m. m.1) messages)
  messages-IsBatch [] address a = (tt, tt)
  messages-IsBatch (m ∷ ms) address a =
      let (sent, batches) = messages-IsBatch ms address a.1 in ((a.0.0, sent), (a.0.1, batches))

-- What the handler of incoming messages passes to the processor, of the messages that a helper sends.
unfoldable pub fetch :
    (Bytes → Option WorkerMessage) → List (SocketAddr × Value) → WorkerReceiverHandler → List Value
unfolding serve dispatch_worker
fetch decode messages handler =
    (serve (dispatch_worker decode) (map (λ m. some m.1) messages) handler).tx_processor

In-at : {x y : Digest} {xs : List Digest} → x ≡ y → In x xs → In y xs
In-at e i = rw (← e) i

fetch-eq :
    {D : Type 0} (setup : Setup D) (decode : Bytes → Option WorkerMessage)
    (messages : List (SocketAddr × Value)) (address : SocketAddr) (handler : WorkerReceiverHandler)
    → All (λ m. (m.0 ≡ address) × IsBatch decode m.1) messages
    → fetch decode messages handler ≡ handler.tx_processor ++ map (λ m. m.1) messages
unfolding fetch
fetch-eq setup decode messages address handler a =
    serve-batches setup decode messages address handler a

-- If the databases answer what was put last, digests have 32 bytes, and what the two workers store under
-- digests are batches with these, then what a worker has processed another can fetch. The helper sends
-- batches, and to the worker that asked; once the messages are received and processed, the worker that
-- asked stores a batch under each digest of its request that the other had processed, with this digest.
pub fetch-Holds :
    {D E : Type 0} (theirs : Setup D) (mine : Setup E)
    (laws : Laws theirs.database theirs.primitives) (my_laws : Laws mine.database mine.primitives)
    (decode : Bytes → Option WorkerMessage)
    → mine.primitives ≡ theirs.primitives
    → (batches : List Value) (s : Processor D) → All (IsBatch decode) batches
    → IsAddressed theirs decode s.store
    → (committee : Committee) (origin : PublicKey) (address : WorkerAddresses)
    → worker committee origin theirs.id ≡ ok address
    → (digests : List Digest) → All (λ d. d < 256 ^ 32) digests
    → (handler : WorkerReceiverHandler) → handler.tx_processor ≡ []
    → (t : Processor E) → IsAddressed mine decode t.store
    → (d : Digest) → In d digests
    → In d (map theirs.primitives.sha512 batches)
    → (value : Value) × (mine.database.get
          (run mine
            (fetch decode
              (answer theirs.id committee theirs.database
                (run theirs batches s).store
                digests
                origin)
              handler)
            t).store
          (digest_key d)
        ≡ ok (some value))
      × (mine.primitives.sha512 value ≡ d)
      × All
          (λ m. m.0 ≡ address.worker_to_worker)
          (answer theirs.id committee theirs.database (run theirs batches s).store digests origin)
unfolding answer
fetch-Holds theirs mine laws my_laws decode p batches s bs a committee origin address w digests fits
      handler none_left t mine_ok d i j =
    let store = (run theirs batches s).store in
    let addressed = run-IsAddressed theirs laws decode batches s bs a in
    let (v, g) = run-Holds theirs laws decode batches s d (inl j) in
    let small = All-In (λ d. d < 256 ^ 32) digests fits i in
    let (e, b) = addressed d v small g in
    let sent = reply theirs.id committee theirs.database store address.worker_to_worker digests in
    let sends =
      reply-All theirs decode theirs.id committee store address.worker_to_worker digests addressed
        fits in
    let (there_all, sent_batches) =
      messages-IsBatch theirs decode sent address.worker_to_worker sends in
    let fetched =
      fetch-eq theirs decode sent address.worker_to_worker handler sends
      ∙ ap (λ l. l ++ map (λ m. m.1) sent) none_left in
    let in_sent =
      reply-In theirs decode theirs.id committee store address.worker_to_worker d v digests g i in
    let digest_eq : mine.primitives.sha512 v ≡ d = ap (λ c. c.sha512 v) p ∙ e in
    let got = map (λ m. m.1) sent in
    let asked =
      In-at digest_eq (In-map mine.primitives.sha512 got (In-map (λ m. m.1) sent in_sent)) in
    let (stored, h) = run-Holds mine my_laws decode got t d (inl asked) in
    let after = run-IsAddressed mine my_laws decode got t sent_batches mine_ok in
    rw (w, fetched) (stored, h, (after d stored small h).0, there_all)
