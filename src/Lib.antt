-- ===== src/Lib.antt =====
-- Verification library of llm-inference-stack: the inference stack of packages/llmkit.
--
-- The program is a toolkit for LLM serving: a paged KV cache, an engine simulator that schedules
-- requests over it, routers and a gateway in front of replicas, an autoscaler, and the analysis
-- of their measurements.
--
-- Paged.antt and its children model the class PagedKVCache of
-- packages/llmkit/llmkit/simulator/paged.py. The record PagedKvCache has the fields of the
-- object; blocks is the pool, and a block object is its position there. The methods are actions
-- (Exec.antt) that give the new object with the value that is returned or the error that is
-- raised, since what a method wrote before a raise stays written. Paged.antt has _evict_one,
-- _take_free_block, _release, free, can_allocate; Paged/Prompt.antt has allocate_prompt and
-- append_token. hash_block is a parameter of allocate_prompt; the float product int(num_blocks *
-- watermark) is an argument of the constructor.
--
-- Paged/Pool.antt is the invariant, and that each change of the parts of the pool keeps it; Take,
-- Grow, Rounds, Allocate, Append and Release prove the methods; Sessions is the relation of all
-- calls that clients make, with the blocks that failed calls lose. The loops are recursions on
-- the entries of the prefix cache, on the rounds left and on the table, so no fuel is needed.
--
-- Contiguous.antt models the class ContiguousAllocator of the same file, the baseline without
-- pages: its allocate is reserve and its free is unreserve. Contiguous/Tiling, Contiguous/Calls
-- and Contiguous/Undo prove it.
--
-- Engine.antt and its children model the class EngineSim of
-- packages/llmkit/llmkit/simulator/engine.py, which schedules requests over a PagedKVCache. The
-- record Engine has the fields of the object; a Sequence object is its position in the store seqs
-- and the queues hold positions, so that a sequence in several lists is one object. The record
-- World has what the engine takes from elsewhere: the block hash, the text hash, the cost model
-- and the random draws. Arrivals has synth_token_ids, submit and _admit_arrivals; Schedule has
-- _sort_waiting, _allocate and _preempt; Plan has _schedule; Grow has _grow_or_preempt; Apply and
-- Step have step, run and _sample_accepted. Times are whole ticks. The inner loop of
-- _grow_or_preempt has as fuel one more than the running sequences, since each round but the last
-- takes one of them out; run takes its number of steps.
--
-- Tokens, Drafts, Sorted, Counted, Admitted, Chunks and Preempted prove the parts of the engine;
-- each has one subject. Not modelled of the engine are its reports.
--
-- Gateway.antt and its children model parts of packages/llmkit/llmkit/gateway.py:
-- Gateway/Retry.antt is the class RetryBudget, and Gateway/Backends.antt has Backend and
-- DegradationChain.candidates. The clock is an argument of each call. The ratio of a budget is a
-- fraction; weights are in units of 1e-9, the least that the sort key takes; the moving average
-- is a parameter. Gateway/Limits.antt has TokenBucket and TenantLimits, whose tokens are kept
-- plus the capacity, since they may be negative. Rates, Checks, Window, Breaker, Chain and
-- Candidates prove them. Hedged calls are not modelled.
--
-- AiGateway.antt and its children model projects/13-ai-gateway/gateway.py on top of these:
-- AiGateway/Handle.antt is forward and handle without streaming, AiGateway/Health.antt the probes
-- and the manual breaker. The HTTP client, the clock at each attempt and prices are the record
-- World; an answer whose body cannot be read is one of its replies, which ends the request by an
-- exception. Loads, Served and Drills prove them. Streaming is not modelled.
--
-- Routing.antt and its children model packages/llmkit/llmkit/routing.py: Routing/Replicas.antt
-- has Replica, the round robin and least loaded routers and the lookup of the hash ring,
-- Routing/Affinity.antt the pick of PrefixAffinityRouter. The hash of texts and the clock are
-- arguments; the overload factor is a fraction, and weights are in units of 1e-6, the least that
-- the sort key takes. Routing/Ring.antt is rebuild and SessionAffinityRouter. Choice, Walk and
-- Moves prove them. The random router and the breaker of a replica are not modelled.
--
-- Cluster.antt and its children model the runs of packages/llmkit/llmkit/cluster.py:
-- Cluster/Prefill.antt is the first stage of run_disaggregated, Cluster/Split.antt its second
-- stage and the whole, Cluster/Decode.antt is _decode_worker. The durations of steps and
-- transfers are the record Costs; times are whole ticks. Request ids are taken to be distinct, as
-- the dictionaries of the source need; the requests of the result stand in the order in which
-- they finish. The loop of a worker has fuel, twice the tokens that are to be made plus two,
-- since each turn makes a token or moves the clock to a request. Cluster/Colocated.antt is
-- run_colocated with _colocated_worker, whose loop takes its number of turns. Queue, Batch,
-- Drain, Workers, Flow, Pools and Complete prove the disaggregated run.
--
-- Autoscale.antt and its children model packages/llmkit/llmkit/autoscale.py: Autoscale.antt has
-- desired_replicas, Autoscale/Signals.antt the signals, Autoscale/Simulate.antt the decision and
-- the lifecycle, Autoscale/Ticks.antt the loop of simulate. Times are whole seconds and amounts
-- are in units of 1e-9; the cold start of each replica with its jitter is a parameter. The loop
-- has as fuel one more than the duration. Wanted, Counts, Scaled and Ran prove them.
--
-- Metrics.antt has the request records of packages/llmkit/llmkit/types.py; its children model
-- packages/llmkit/llmkit/metrics.py: Metrics/Percentile.antt is percentile by nearest rank, where
-- the ceiling of the float product is a parameter, Metrics/Concurrency.antt is
-- _integrate_concurrency, Metrics/Summary.antt the counts of summarize, SLO.met_by and find_knee.
-- Time stamps are one above the source's, so that 0 is UNSET. Ranked, Areas, Accounts and Knee
-- prove them. Means, deviations and derived rates are not modelled.
--
-- Prom.antt models the class CounterRate of packages/llmkit/llmkit/prom.py, with its updates as a
-- run of samples; Prom/Log.antt is the log that it stands for. The parsing of the text is not
-- modelled.
--
-- Prelude.antt passes on the shared names; its children have the tests, lists and dictionaries.
pub mod AiGateway
pub mod Autoscale
pub mod Cluster
pub mod Contiguous
pub mod Engine
pub mod Exec
pub mod Gateway
pub mod Metrics
pub mod Paged
pub mod Prelude
pub mod Prom
pub mod Routing
