-- ===== src/Processors/Lending/Markets.antt =====
-- Which market an event of examples/linx-indexer/src/processors/lending_processor.rs belongs to, and
-- what the processor makes of a list of blocks.
use linx_app_backend.Base.{
  Option, some, none, List, [], ◌∷◌, ◌++◌, String, ◌≡◌, refl, sym, ap, ◌∙◌, subst, ◌↔◌, inl, inr,
  if◌then◌else◌, Bool-cases, In, flat_map, In-flat_map, In→flat_map, In-filter_map, In→filter_map,
}
use linx_app_backend.Base.Equality.{string_eq, eqb, eqb→eq}
use linx_app_backend.Base.HashMap.{HashMap, get, insert, get-alter_same, get-alter_other}
use linx_app_backend.Base.Outcome.{ok, ◌>>=◌ as and_then}
use linx_app_backend.Types.Block.{RichBlockEntry, BlockAndEvents, ContractEventByBlockHash}
use linx_app_backend.Types.Libraries.{BigDecimal, NaiveDateTime}
use linx_app_backend.Processors.Lending.{
  LendingProcessorOutput, LendingRepository, market_map, new_markets, process_lending,
  extract_lending_events, parse_lending_event,
}
use linx_app_backend.Processors.LendingEvents.{Market, NewLendingEvent}
use mathlib.Core.Path.{fun_ext}
use linx_app_backend.Processors.Lending.Layout.{read_event, parse_lending_event_lem}

module _ {D T : Type 0} where
  -- The last market of the list that has the id.
  abbrev pub last_market : String → List (Market D T) → Option (Market D T) → Option (Market D T)
  last_market id [] found = found
  last_market id (m ∷ ms) found = last_market id ms (if eqb id m.id then some m else found)

  get-insert :
      (id : String) (m : Market D T) (known : HashMap String (Market D T))
      → get id (insert m.id m known) ≡ (if eqb id m.id then some m else get id known)
  get-insert id m known = elim (Bool-cases (eqb id m.id)) [
    | inl t ↦
        subst (λ i. get i (insert m.id m known) ≡ some m) (sym (eqb→eq id m.id t))
          (get-alter_same m.id m (λ _. m) known)
        ∙ sym (ap (λ b. if b then some m else get id known) t)
    | inr f ↦
        get-alter_other m.id id m (λ _. m) known f
        ∙ sym (ap (λ b. if b then some m else get id known) f)
  ]

  get-market_map :
      (id : String) (ms : List (Market D T)) (known : HashMap String (Market D T))
      → get id (market_map ms known) ≡ last_market id ms (get id known)
  unfolding market_map
  get-market_map id [] known = refl
  get-market_map id (m ∷ ms) known =
      get-market_map id ms (insert m.id m known) ∙ ap (last_market id ms) (get-insert id m known)

module _ {D T : Type 0} (decimal : BigDecimal D) (chrono : NaiveDateTime T) (linx_address : String)
    (now : T) where
  parsed_event :
      (markets : List (Market D T)) (block : RichBlockEntry) (event : ContractEventByBlockHash)
      → parse_lending_event decimal chrono linx_address now block event (market_map markets [])
        ≡ read_event decimal chrono linx_address now (λ id. last_market id markets none) block event
  unfolding get
  parsed_event markets block event =
      parse_lending_event_lem decimal chrono linx_address now block event (market_map markets [])
      ∙ ap (λ market. read_event decimal chrono linx_address now market block event)
          (fun_ext (λ id. get-market_map id markets []))

  events_iff :
      (bwe : List BlockAndEvents) (markets : List (Market D T)) (e : NewLendingEvent D T)
      → In e (
          flat_map
            (λ b. extract_lending_events decimal chrono linx_address now b (market_map markets []))
            bwe)
        ↔ ((b : BlockAndEvents) × (event : ContractEventByBlockHash) × In b bwe
            × In event b.events
            × (read_event decimal chrono linx_address now
                  (λ id. last_market id markets none)
                  b.block
                  event
                ≡ some e))
  unfolding extract_lending_events
  events_iff bwe markets e = (
    λ h.
        let (b, in_bwe, h1) = In-flat_map _ e bwe h in
        let (event, in_block, parsed) =
          In-filter_map
            (λ event.
              parse_lending_event decimal chrono linx_address now b.block event
                (market_map markets []))
            e b.events h1 in
        (b, event, in_bwe, in_block, sym (parsed_event markets b.block event) ∙ parsed),
    λ (b, event, in_bwe, in_block, read).
        In→flat_map _ b e bwe in_bwe
          (In→filter_map _ event e b.events in_block (parsed_event markets b.block event ∙ read)),
  )

module _ {D T S : Type 0} (decimal : BigDecimal D) (chrono : NaiveDateTime T)
    (linx_address : String) (now : T) (repository : LendingRepository D T S) where
  -- What the processor makes of a list of blocks, when the known markets can be read: the markets
  -- that the blocks create, and exactly the events that can be read by their layout, each with its
  -- token from the last market of its id, among those known before and those that the blocks
  -- create, also later in the list.
  pub process_lending_lem :
      (bwe : List BlockAndEvents) (s : S) (known : List (Market D T))
      → repository.get_all_markets s ≡ ok known
      → (output : LendingProcessorOutput D T) × (process_lending decimal chrono linx_address now
            repository bwe s
          ≡ ok output)
        × (output.markets ≡ new_markets decimal chrono linx_address bwe)
        × ((e : NewLendingEvent D T)
            → In e output.events ↔ (
                (b : BlockAndEvents) × (event : ContractEventByBlockHash) × In b bwe
                × In event b.events
                × (read_event decimal chrono linx_address now
                      (λ id.
                        last_market id (known ++ new_markets decimal chrono linx_address bwe) none)
                      b.block
                      event
                    ≡ some e)))
  unfolding process_lending
  process_lending_lem bwe s known reads =
      let markets = known ++ new_markets decimal chrono linx_address bwe in
      let events =
        flat_map
          (λ b. extract_lending_events decimal chrono linx_address now b (market_map markets []))
          bwe in
      (
        record { markets = new_markets decimal chrono linx_address bwe; events = events },
        ap
            (λ r. and_then r λ ms. ok (record {
              markets = new_markets decimal chrono linx_address bwe;
              events =
                  flat_map
                    (λ b.
                      extract_lending_events decimal chrono linx_address now b
                        (market_map (ms ++ new_markets decimal chrono linx_address bwe) []))
                    bwe;
            }))
            reads,
        refl,
        λ e. events_iff decimal chrono linx_address now bwe markets e,
      )
