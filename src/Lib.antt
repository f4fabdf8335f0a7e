-- ===== src/Lib.antt =====
-- A model of the core of SFA routing (backend/app), the planner of routes for sales agents and
-- deliveries, with the theorems that make it correct.
--
-- The parts and how they interact. A routing problem (jobs, vehicles, constraints) is given to a
-- solver. The selector chooses one by its capabilities and scores, the factory runs a chain of
-- solvers until one gives a good enough result, and the solvers of the repository itself build the
-- routes: the greedy one by nearest neighbours, with 2-opt for single tours, and the genetic one by
-- evolution. Distance matrices come in batches from OSRM. While the routes are driven, events pass
-- a priority queue to handlers, a spatial index finds agents near a place, and the WebSocket
-- manager sends messages. A rate limiter and an idempotency filter stand in front of the API. The
-- planners use all of this: the weekly planner gives an agent's clients days and has each day solved
-- by the factory's chain, field routing plans loops of vehicles and months of visits, and rerouting
-- renumbers the visits of routes under way.
--
-- Which file models which part (services/ is backend/app/services/):
--   Problem           services/solvers/solver_interface.py: the dataclasses and enums; Priority is
--                     Job.calculate_priority_score, Calendar the regional breaks and paydays.
--   Greedy            services/solvers/greedy_solver.py: GreedySolver.solve and what it calls; the
--                     `while True` loop is `extend`, the loop over the vehicles `assign_vehicles`.
--   TwoOpt, Tour      the same file: _improve_with_2opt with its delta and swap, and solve_tsp.
--   Genetic           services/solvers/genetic_solver.py: crossover, mutations, the split into
--                     routes; Genetic.Evolve the evolution loop, the fitness and the decoding,
--                     Genetic.Tours its solve_tsp.
--   Selector          services/solvers/solver_selector.py: SmartSolverSelector.
--   Factory           services/solvers/solver_interface.py: SolverFactory, with estimate_quality.
--   ParallelMatrix    services/caching/parallel_matrix.py: ParallelMatrixComputer.
--   MatrixCache       the same file: MatrixCache and CachedParallelMatrixComputer.
--   SpatialIndex      services/realtime/spatial_index.py: H3SpatialIndex; Persistence is its
--                     copy in Redis, and Grid the FallbackSpatialIndex and the factory.
--   EventPipeline     services/realtime/event_pipeline.py: the pipeline and its handlers; Workers has
--                     start and stop and the halves of the workers' rounds, in any order.
--   WebSocket         services/realtime/websocket_manager.py: WebSocketManager.
--   RateLimiter       backend/app/core/rate_limiter.py: the sliding window of one client; Middleware
--                     is the middleware and the dependency over the buckets of all callers.
--   Idempotency       backend/app/core/middleware/idempotency.py: IdempotencyMiddleware.dispatch,
--                     with the set of backend/app/core/cache.py.
--   FieldRouting      services/planning/field_routing.py with schemas/field_routing.py: Vrpc is
--                     VRPCService, Weeks SinglePlanSolver, Clusters AutoPlanSolver.
--   WeeklyPlanner     services/planning/weekly_planner.py: Assignment is cluster_by_geography and
--                     assign_to_days, Routes optimize_day_route, the fallback and the weekly plan.
--   Rerouting         services/planning/rerouting.py: ReroutingService; Stops is its part for
--                     delivery routes, with the stops of models/delivery_route.py.
--   Predictive        services/planning/predictive_rerouting.py: the check of a schedule, the
--                     proactive rerouting over the service of Rerouting, the fleet status and, in
--                     Monitoring, the rounds of checks.
--   Webhook           services/webhook_service.py: signatures, attempts and dispatch.
--   GeoSecurity       services/security/geo_security.py: LocationAnonymizer.
--   Prelude           shared names: numbers, lists, integers, permutations,
--                     sums and dates.
-- The operations have the names of the methods; a child module proves what it is named for, and
-- the Samples modules hold the test data, the tests and the instances of the theorems.
--
-- State is passed explicitly, and an exception is `none` or a constructor of the result. Weights are
-- in grams, distances in millimetres (`int(d / 8.33)` is `d / 8330`), times in seconds (in
-- FieldRouting.Vrpc in micrometres and microseconds, which are rounded to hundredths), coordinates
-- and scores in fixed fractions of their unit; there are no floating-point numbers. Draws of the
-- random module, clocks, the haversine formula, H3, OSRM, Redis, the handlers of requests and the
-- solver instances are parameters.
--
-- Bounds and fuel. The loop of a greedy route runs as often as there are jobs, since each round takes
-- one; 2-opt has the 100 iterations of MAX_2OPT_ITERATIONS; the rounds of a tour are the number of
-- locations; the evolution runs once for each entry of the draws, at most `generations`; the batches
-- of a matrix are at most as many as its points. A vehicle's loops and the points of a loop take at
-- least one point each, so they run as often as there are points; so do the clusters.
--
-- Not modelled: the external solvers (VROOM, OR-Tools) and the clustering service, which are left for
-- later; the audit log of geo data, which waits for the database in the middle of a flush; the
-- encryption and the GDPR export, which are calls of libraries and placeholders; databases, HTTP, models, schemas, endpoints, reports, logging and
-- configuration, which are glue around libraries.
pub mod Prelude
pub mod Problem
pub mod Greedy
pub mod TwoOpt
pub mod Tour
pub mod Genetic
pub mod Selector
pub mod Factory
pub mod SpatialIndex
pub mod RateLimiter
pub mod Idempotency
pub mod WebSocket
pub mod EventPipeline
pub mod ParallelMatrix
pub mod MatrixCache
pub mod FieldRouting
pub mod Rerouting
pub mod WeeklyPlanner
pub mod Webhook
pub mod GeoSecurity
pub mod Predictive
