-- ===== src/Lib.antt =====
-- The twasm, poe and globalfee modules of a proof-of-engagement blockchain, a Cosmos SDK application in
-- Go: smart contracts that hold privileges, and the contracts that run the chain by them.
--
-- A contract that is promoted gets the privileged flag. It can then register for privileges: callbacks
-- at the begin and end of a block, and permissions to execute governance proposals, mint tokens, change
-- consensus parameters or move delegated funds. Each registration is kept twice: in the contract's own
-- details, an extension of its contract info that wasmd stores, and in an index from privilege type and
-- position to the address, by which callbacks are made. The handler of the contract's messages
-- registers and releases, and checks the details before it acts; demotion releases what is left.
--
-- The poe module keeps the addresses of its contracts, takes the changes of the validator set from the
-- contract that is registered for it, sends the fees to the valset contract, grants engagement points
-- to new validators, unbonds their stake, and keeps the block headers that IBC asks for. At genesis it
-- validates the configuration, creates its contracts in order and hands their administration to the
-- validator voting contract, or imports the addresses of a dump. Its message server registers, updates,
-- bonds and unbonds validators by calls of the contracts, and it answers the staking queries of other
-- contracts from theirs. The globalfee module asks each transaction for a minimum fee.
--
-- Files, and the Go code they model, by the paths of the repository:
--   Twasm/Privilege   x/twasm/types/privilege.go: privilege types and their names (registerCallbackType,
--                     PrivilegeTypeFrom, UnmarshalJSON, MarshalJSON)
--   Twasm/Details     x/twasm/types/contract_extension.go: PetriContractDetails. A value is a Go slice:
--                     its elements and the stale rest of the backing array, which a header copied
--                     before a removal still reads.
--   Twasm/Keeper      x/twasm/keeper/privileged.go and keeper.go: flags, index (appendToPrivilegedContracts,
--                     IteratePrivilegedContractsByType), Keeper/Privileged for SetPrivileged,
--                     UnsetPrivileged and importPrivileged
--   Twasm/Messages    x/twasm/contract/incoming_msgs.go: message structs, validation, GetProposalContent
--   Twasm/Handler     x/twasm/keeper/handler_plugin.go: handlePrivilege and mergeConsensusParamsUpdate,
--                     Handler/Dispatch for DispatchMsg, the other handlers and the restricted router
--   Twasm/Callbacks   x/twasm/contract/callback_msgs.go: messages sent to contracts
--   Twasm/Abci        x/twasm/abci.go: BeginBlocker and EndBlocker
--   Twasm/Proposals   x/twasm/keeper/proposal_handler.go, x/twasm/types/proposal.go
--   Twasm/Genesis     x/twasm/keeper/genesis.go: InitGenesis, Genesis/Export for ExportGenesis,
--                     Genesis/Validate for x/twasm/types/genesis.go (ValidateBasic, RawWasmState)
--   Twasm/Tests       a concrete wasm keeper, contracts and services, and runs on them
--   Poe/Registry      x/poe/keeper/keeper.go, x/poe/types/poe.go: store and cache of the addresses
--   Poe/Valset        x/poe/abci.go (EndBlocker), x/poe/contract/contractio.go
--                     (CallEndBlockWithValidatorUpdate, ConvertToTendermintPubKey)
--   Poe/Unbonding     x/poe/contract/contractio.go: UnbondDelegation
--   Poe/Fees          x/poe/ante.go: AnteHandle, DeductFees
--   Poe/Engagement    x/poe/keeper/engagement.go
--   Poe/History       x/poe/keeper/historical_info.go: TrackHistoricalInfo
--   Poe/Messages      x/poe/types/msg.go: the messages and their ValidateBasic
--   Poe/Contract      x/poe/contract/contractio.go: RegisterValidator, UpdateValidator, BondDelegation
--   Poe/Server        x/poe/keeper/msg_server.go, Server/Dispatch for x/poe/handler.go
--   Poe/Adapter       x/poe/contract/contractio.go, petri_valset.go, pt4_stake.go, petri_distribution.go and
--                     voting.go: the adapters' queries; Adapter/Pages for IterateActiveValidators
--   Poe/Plugin        x/poe/wasm/query_plugin.go: StakingQuerier, CustomQuerier
--   Poe/Queries       x/poe/keeper/querier.go and legacy_staking_querier.go
--   Poe/Genesis       x/poe/types/genesis.go: validation of configurations, Genesis/Seed for
--                     validateSeedContracts, Genesis/State for ValidateGenesis and, of
--                     x/poe/keeper/genesis.go, InitGenesis and ExportGenesis
--   Poe/Bootstrap     x/poe/bootstrap.go: BootstrapPoEContracts, Bootstrap/Init for the init messages,
--                     Bootstrap/Verify for VerifyPoEContracts
--   Globalfee         x/globalfee/ante.go: AnteHandle
--   Poe/Tests         concrete parameters and runs for x/poe
-- The child modules of these prove what they are named for. Base holds what all share: Outcome (a Go
-- call ends with a value, an error or a panic), integers with 64-bit wrap, lists and finite maps.
--
-- State. Keeper.State has the flags, the index, the state of the other modules (`wasm`) and the events,
-- the last one first. An Action passes it on explicitly; what a failing action wrote stays written, as
-- in Go, where the caller drops the branch of the store. Addresses are numbers, as the code only
-- compares them; the store's keys for an index entry are the pair of type and position.
--
-- Parameters. WasmKeeper is the keeper of wasmd, with the laws of Keeper/Laws; Contracts is the JSON
-- encoder and the entry point of a contract, which may change the whole state, since a contract
-- can send messages while it runs, and what the commit of a branch makes of its events; Services are the bank, the base application, the governance router
-- and the parsers of addresses, amounts and coins; the services of x/poe are records beside their
-- operations. No proof assumes anything of these but the laws of the wasm keeper and, in
-- Globalfee/Minimum, Poe/Messages/Valid, Poe/Genesis/Ratios and Poe/Bootstrap/Setup, those of decimals
-- and coins. JSON is a
-- parameter throughout: an Executor or a Querier encodes what it sends and says what an answer reads as.
--
-- Bounds. Positions are bytes, 0 to 255; an iterator over one privilege type is a walk over the 256
-- positions, and the reverse iterator the same from above. The rounds of the loops over details are the
-- length of the slice at the start, as Go's range fixes it, so no fuel can run out. The pruning of
-- headers recurses on the height, which is not negative. The loops over the pages of a contract's
-- answer have no bound in the code; they take fuel here. For a contract that serves its entries in
-- pages, each but the last with an entry, more rounds than there are entries are enough; for
-- IterateActiveValidators, which reads the first page before the loop, one round more than that for the
-- entries after this page.
--
-- Not modelled: protobuf and JSON encodings (what a decoder gives is an argument), gas, logging and
-- telemetry, command line, the legacy queriers for slashing and distribution, module glue, and generated code; of x/poe default
-- parameters, the stubs of the staking adapter, and the calls that only tests make.
pub mod Base
pub mod Globalfee
pub mod Poe
pub mod Twasm
