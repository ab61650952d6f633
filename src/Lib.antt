-- ===== src/Lib.antt =====
-- Helios Home: a verification library of the edge service, apps/edge-api/app.
--
-- The edge service finds the energy devices of a home, reads them, plans their power and commands
-- them. This library models its field bus, the path of a command to a device, the decisions that the
-- user is asked for, the loop of its agent, and the merging of what discovery finds.
--
-- Modbus (services/modbus.py):
--   Modbus.Codec        registers to values and back: _decode_*, _encode_*, _apply_scale_factor,
--                       _remove_scale_factor, _decode_point_value, _encode_point_registers
--   Modbus.Transport    _recv_exact and _send_modbus_request
--   Modbus.Registers    read_holding_registers, write_multiple_registers, read_register_window
--   Modbus.Blocks       parse_sunspec_model_blocks, _read_sunspec_model_blocks, _detect_sunspec_base
--   Modbus.Points       write_sunspec_model_points, read_sunspec_model_values and their helpers
--   Modbus.Models       the tables *_POINTS and MODEL_POINT_DEFINITIONS
-- Energy management (hems/):
--   Hems.Models         the records of hems/models.py, hems/adapter_registry.py and of db/models.py
--   Hems.Dispatchability  hems/dispatchability.py: who may be commanded, within which bounds
--   Hems.LoadControl    hems/load_control.py: the operator's limits (Limits), the limits at the grid
--                       and the shares of the devices (Grid), and the deliveries (Deliveries)
--   Hems.Dispatcher     hems/dispatcher.py, and of hems/write_adapters.py the target of a dispatch
--                       and the choice of its adapter (Adapters)
--   Hems.Writers        hems/write_adapters.py: the commands as adapters read them, the telemetry
--                       simulation (Simulation), the two HTTP relays (Relays), the setpoint of a
--                       storage
-- Work store (work_store/service.py):
--   WorkStore           the rows of db/models.py; tasks, steps and blockers
--   WorkStore.Proposals   create_proposal_with_decision_request, list_pending_proposals
--   WorkStore.Candidates  materialize_approved_role_candidate, accepted_role_candidates,
--                       latest_accepted_role_candidate_for_entity, _find_open_commissioning_task
--   WorkStore.Decisions   record_user_decision; its states over time (Once)
-- Discovery (services/candidate_reconciliation.py):
--   Discovery.Identity  _candidate_identity_keys and the texts that they are made of
--   Discovery.Rank      _source_rank, the _pick_* functions and _merge_telemetry
--   Discovery.Merge     _merge_cluster and _merge_evidence
--   Discovery.Clusters  reconcile_candidates
-- Agent (agent/):
--   Agent.Tools         agent/tools/registry.py, with AgentTool of agent/tools/schemas.py
--   Agent.Messages      the messages of agent/provider.py, and the events of a turn
--   Agent.Runtime       agent/runtime.py: AgentRuntime.run and its helpers
--
-- The parts meet as in the program: a contract of Hems.Dispatchability bounds what Hems.Dispatcher
-- sends to an adapter; the active limits of Hems.LoadControl tighten the limits at the grid; the
-- events of a dispatch move its deliveries on; the agent's tools make proposals of the work store, and
-- a decision about one makes the candidate that it proposes.
--
-- A Python function is a function of the same name, without a leading underscore. What it mutates is
-- passed in and out: the table is the list of its rows, the session a record of tables. A drawn
-- identifier and the clock are arguments. An exception is the value err of Result. A dictionary with
-- fixed keys is a record, another one a list of fields, and an argument that the program only passes
-- on may be left out. The text of a log or of a failure is not kept, nor are the asset reasons' texts.
--
-- Parameters. The other end of a Modbus connection is a Peer: what it answers is an argument, and
-- Serves and Stores say what the protocol documents of a server. Floats are a type W with the
-- operations of Prelude.Float; IsOrdered holds what Python documents of floats that are not NaN, and
-- whole numbers are an instance. WriteAdapter and AgentTool are the interfaces of these names in the
-- program; a tool's validation of its arguments, which pydantic does, is a field of it. The provider
-- of the language model is a function on a state of its own that may fail. What a relay answers an
-- HTTP request, and int(text), are parameters. The reference of a role candidate, a uuid5, is a
-- function of the site, the entity and the role; str(value) of a value that is no text is the field
-- repr of Repr.
--
-- Bounds. Registers are 16 bits wide and wrap as struct.pack and & 0xFFFF make them. The loop of
-- read_register_window has as many rounds as registers are asked for, since each round reads at
-- least one; the loop of parse_sunspec_model_blocks has as many as there are registers, since each
-- round skips at least two; the reading loop has the program's own 16 rounds. The loop of
-- AgentRuntime.run counts the iterations that are left; the loop of _normalize_text has as many
-- rounds as the text has characters, since each makes it shorter.
--
-- Not modelled: the planner's optimisation, which is left to an external solver, the database and
-- web frameworks, EEBUS sessions, the network scans of discovery, the tools and the service of the
-- agent, the calls of language models, the graph of the home, actions and workflows, and the
-- exchanges of the SunSpec adapters; of services/modbus.py the extraction of telemetry, the
-- classification of devices and the scan of a site; texts outside ASCII in strip, lower and isalnum.
pub mod Prelude
pub mod Modbus
pub mod Hems
pub mod WorkStore
pub mod Discovery
pub mod Agent
